-- ===== src/Review/Patch/Inversion.antt =====
-- patch.rs: what is known when a chain of `?` and early returns ends well.
use nits.Prelude.{
  ◌≡◌, ◌⊎◌, refl, inl, inr, Bool, true, false, not, Option, none, some, Result, ok, err, ◌>>=◌,
  if◌then◌else◌,
}
use nits.Review.Patch.{PatchError, and_then, ok_or}

pub bind_ok :
    {A B : Type 0} (m : Result {0, 0} A PatchError) (f : A → Result {0, 0} B PatchError) {b : B}
    → m >>= f ≡ ok b
    → (a : A) × (m ≡ ok a) × (f a ≡ ok b)
bind_ok (ok a) f h = (a, refl, h)
bind_ok (err e) f h = cc

pub ok_or_ok :
    {A : Type 0} (o : Option A) (e : PatchError) {a : A}
    → ok_or {E = PatchError} o e ≡ ok a
    → o ≡ some a
ok_or_ok none e h = cc
ok_or_ok (some b) e h = cc

pub guard_ok :
    {A : Type 0} (t : Bool) (e : PatchError) (m : Result {0, 0} A PatchError) {a : A}
    → (if not t then err e else m) ≡ ok a
    → (t ≡ true) × (m ≡ ok a)
guard_ok true e m h = (refl, h)
guard_ok false e m h = cc

pub none-some : {A : Type 0} {a : A} → none ≡ some a → ⊥
none-some h = cc

pub ok_inj : {A : Type 0} {a b : A} → ◌≡◌ {A = Result {0, 0} A PatchError} (ok a) (ok b) → a ≡ b
ok_inj h = cc

pub some_eq : {A : Type 0} {a b : A} → some a ≡ some b → a ≡ b
some_eq h = cc

pub and_then-some :
    {A B : Type 0} (o : Option A) (f : A → Option B) {b : B}
    → and_then o f ≡ some b
    → (a : A) × (o ≡ some a) × (f a ≡ some b)
and_then-some none f h = cc
and_then-some (some a) f h = (a, refl, h)

pub if_some :
    {A : Type 0} (t : Bool) (o : Option A) {a : A} → (if t then o else none) ≡ some a → o ≡ some a
if_some true o h = h
if_some false o h = cc

pub else_some :
    {A : Type 0} (t : Bool) (o : Option A) {a : A} → (if t then none else o) ≡ some a → o ≡ some a
else_some true o h = cc
else_some false o h = h

pub else_ok :
    {A : Type 0} (t : Bool) (e : PatchError) (m : Result {0, 0} A PatchError) {a : A}
    → (if t then err e else m) ≡ ok a
    → (t ≡ false) × (m ≡ ok a)
else_ok true e m h = cc
else_ok false e m h = (refl, h)

pub then_ok :
    {A : Type 0} (t : Bool) (e : PatchError) (m : Result {0, 0} A PatchError) {a : A}
    → (if t then m else err e) ≡ ok a
    → m ≡ ok a
then_ok true e m h = h
then_ok false e m h = cc

-- Which branch made the result.
pub branch_ok :
    {A : Type 0} (t : Bool) {m n : Result {0, 0} A PatchError} {a : A}
    → elim t [ true ↦ m | false ↦ n ] ≡ ok a
    → (m ≡ ok a) ⊎ (n ≡ ok a)
branch_ok true h = inl h
branch_ok false h = inr h

pub if_ok :
    {A : Type 0} (t : Bool) {m n : Result {0, 0} A PatchError} {a : A}
    → (if t then m else n) ≡ ok a
    → (m ≡ ok a) ⊎ (n ≡ ok a)
if_ok true h = inl h
if_ok false h = inr h
