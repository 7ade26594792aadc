-- ===== src/Protocol/Lines.antt =====
-- crates/nits-protocol/src/invariants.rs: line numbers, line ranges and column ranges.
-- A `LineNo` wraps a `NonZeroU32`; here it is that number, and `+ 1` wraps as in a release build.
use nits.Prelude.{
  ℕ, ◌+◌, ◌-◌, ◌%◌, ◌^◌, ◌≤◌, ◌<◌, ◌≡◌, Bool, ◌&&◌, Option, none, some, Result, ok, err, arith, leb,
  ◌==◌, if◌then◌else◌,
}

abbrev pub u32_mod : ℕ
u32_mod = 2 ^ 32

pub data RangeError : Type 0 where
  inverted : ℕ → ℕ → RangeError

pub record LineNo : Type 0 where
  pub get : ℕ

-- What `NonZeroU32` keeps.
abbrev pub IsLineNo : LineNo → Type 0
IsLineNo n = (0 < n.get) × (n.get < u32_mod)

abbrev pub first_line : LineNo
first_line = record { get = 1 }

unfoldable pub line_no : ℕ → Option LineNo
line_no n = if n == 0 then none else some (record { get = n })

unfoldable pub from_index : ℕ → LineNo
from_index i = if (i + 1) % u32_mod == 0 then first_line else record { get = (i + 1) % u32_mod }

unfoldable pub index : LineNo → ℕ
index n = n.get - 1

pub record LineRange : Type 0 where
  pub start : LineNo
  pub end : LineNo

unfoldable pub line_range : LineNo → LineNo → Result LineRange RangeError
line_range s e =
    if leb s.get e.get then ok (record { start = s; end = e }) else err (inverted s.get e.get)

-- What the constructor keeps: both ends are line numbers, in order.
pub record IsLineRange (r : LineRange) : Type 0 where
  pub start_valid : IsLineNo r.start
  pub end_valid : IsLineNo r.end
  pub ordered : r.start.get ≤ r.end.get

unfoldable pub single : LineNo → LineRange
single n = record { start = n; end = n }

-- `end - start + 1`; an overflow wraps.
unfoldable pub range_len : LineRange → ℕ
range_len r = (r.end.get - r.start.get + 1) % u32_mod

unfoldable pub contains : LineRange → LineNo → Bool
contains r n = leb r.start.get n.get && leb n.get r.end.get

pub record ColRange : Type 0 where
  pub start : ℕ
  pub end : ℕ

unfoldable pub col_range : ℕ → ℕ → Result ColRange RangeError
col_range s e = if leb s e then ok (record { start = s; end = e }) else err (inverted s e)

unfoldable pub col_len : ColRange → ℕ
col_len r = r.end - r.start

unfoldable pub col_is_empty : ColRange → Bool
col_is_empty r = r.start == r.end

pub index-from_index : (i : ℕ) → i + 1 < u32_mod → index (from_index i) ≡ i
unfolding index from_index
index-from_index i h = ground arith

pub from_index-IsLineNo : (i : ℕ) → IsLineNo (from_index i)
unfolding from_index
from_index-IsLineNo i = ground arith

-- Line numbers and 0-based indices correspond both ways, for every valid line number.
pub from_index-index : (n : LineNo) → IsLineNo n → from_index (index n) ≡ n
unfolding index from_index
from_index-index n h = ground arith
