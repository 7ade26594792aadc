-- ===== src/Client/View/Sync.antt =====
-- patch.rs: sections are independent, and patches bring a copy of the view up to date.
use mathlib.Core.Path.{subst}
use nits.Prelude.{
  ◌||◌, true, false, List, [], ◌∷◌, ◌++◌, ◌≡◌, ◌≢◌, inl, inr, refl, sym, ◌∙◌, ap, arith, same,
  same_refl, same→eq, Bool-cases, if◌then◌else◌,
}
use nits.Client.View.{
  ViewSection, connection, search, review_list, tree, diff, threads, conversation, commit_stepper,
  ref_selector, progress, focus, hints, help, draft, ViewSection-discrete, all_sections, ViewTypes,
  ViewModel, section, patch, apply, apply_all, patches, full_patches, has_section, view_delta,
  push_new,
}

same_ne : {s t : ViewSection} → same ViewSection-discrete t s ≡ false → t ≢ s
same_ne {s} {t} other q = cc (
  other,
  same_refl ViewSection-discrete s,
  ap (λ (x : ViewSection). same ViewSection-discrete x s) q,
)

module _ (T : ViewTypes) where
  -- A section's patch says which section it is of.
  pub section-patch : (m : ViewModel T) (s : ViewSection) → section T (patch T m s) ≡ s
  unfolding section patch
  section-patch m connection = refl
  section-patch m search = refl
  section-patch m review_list = refl
  section-patch m tree = refl
  section-patch m diff = refl
  section-patch m threads = refl
  section-patch m conversation = refl
  section-patch m commit_stepper = refl
  section-patch m ref_selector = refl
  section-patch m progress = refl
  section-patch m focus = refl
  section-patch m hints = refl
  section-patch m help = refl
  section-patch m draft = refl

  apply-patch_self :
      (src dst : ViewModel T) (s : ViewSection)
      → patch T (apply T (patch T src s) dst) s ≡ patch T src s
  unfolding apply patch
  apply-patch_self src dst connection = refl
  apply-patch_self src dst search = refl
  apply-patch_self src dst review_list = refl
  apply-patch_self src dst tree = refl
  apply-patch_self src dst diff = refl
  apply-patch_self src dst threads = refl
  apply-patch_self src dst conversation = refl
  apply-patch_self src dst commit_stepper = refl
  apply-patch_self src dst ref_selector = refl
  apply-patch_self src dst progress = refl
  apply-patch_self src dst focus = refl
  apply-patch_self src dst hints = refl
  apply-patch_self src dst help = refl
  apply-patch_self src dst draft = refl

  apply-patch_ne :
      (src dst : ViewModel T) (s t : ViewSection)
      → s ≢ t
      → patch T (apply T (patch T src s) dst) t ≡ patch T dst t
  unfolding apply patch
  apply-patch_ne src dst connection connection ne = absurd (ne refl)
  apply-patch_ne src dst search search ne = absurd (ne refl)
  apply-patch_ne src dst review_list review_list ne = absurd (ne refl)
  apply-patch_ne src dst tree tree ne = absurd (ne refl)
  apply-patch_ne src dst diff diff ne = absurd (ne refl)
  apply-patch_ne src dst threads threads ne = absurd (ne refl)
  apply-patch_ne src dst conversation conversation ne = absurd (ne refl)
  apply-patch_ne src dst commit_stepper commit_stepper ne = absurd (ne refl)
  apply-patch_ne src dst ref_selector ref_selector ne = absurd (ne refl)
  apply-patch_ne src dst progress progress ne = absurd (ne refl)
  apply-patch_ne src dst focus focus ne = absurd (ne refl)
  apply-patch_ne src dst hints hints ne = absurd (ne refl)
  apply-patch_ne src dst help help ne = absurd (ne refl)
  apply-patch_ne src dst draft draft ne = absurd (ne refl)
  apply-patch_ne src dst _ _ ne = refl

  -- The patches of some sections, in any order and even repeated, bring exactly those up to date.
  patch-apply_all :
      (src dst : ViewModel T) (ss : List ViewSection) (t : ViewSection)
      → patch T (apply_all T (patches T src ss) dst) t
        ≡ (if has_section t ss then patch T src t else patch T dst t)
  unfolding apply_all patches has_section
  patch-apply_all src dst [] t = refl
  patch-apply_all src dst (s ∷ ss) t =
      patch-apply_all src (apply T (patch T src s) dst) ss t
      ∙ elim (Bool-cases (same ViewSection-discrete t s)) [
        | inl here ↦
            let brought : patch T (apply T (patch T src s) dst) t ≡ patch T src t =
              subst (λ (x : ViewSection). patch T (apply T (patch T src s) dst) x ≡ patch T src x)
                (sym (same→eq ViewSection-discrete t s here)) (apply-patch_self src dst s) in
            ground (arith, brought, here)
        | inr other ↦ ground (arith, other, apply-patch_ne src dst s t (λ q. same_ne other (sym q)))
      ]

  -- A UI that attached with any model of its own and installs the full patches has the view of
  -- the core in every field but `review`, which is never pushed and stays as it was.
  pub full_patches-apply_all :
      (src dst : ViewModel T)
      → apply_all T (full_patches T src) dst ≡ record src { review = dst.review }
  unfolding apply_all apply full_patches patch
  full_patches-apply_all src dst = refl

-- Every section once: `iter` leaves none out.
has_section-all : (s : ViewSection) → has_section s all_sections ≡ true
unfolding has_section same ViewSection-discrete
has_section-all connection = refl
has_section-all search = refl
has_section-all review_list = refl
has_section-all tree = refl
has_section-all diff = refl
has_section-all threads = refl
has_section-all conversation = refl
has_section-all commit_stepper = refl
has_section-all ref_selector = refl
has_section-all progress = refl
has_section-all focus = refl
has_section-all hints = refl
has_section-all help = refl
has_section-all draft = refl

has_section-append :
    (t : ViewSection) (xs : List ViewSection) (s : ViewSection)
    → has_section t (xs ++ s ∷ []) ≡ (has_section t xs || same ViewSection-discrete t s)
unfolding has_section
has_section-append t [] s = ground arith
has_section-append t (x ∷ xs) s = ground (arith, has_section-append t xs s)

has_section-push_new :
    (t : ViewSection) (out ss : List ViewSection)
    → has_section t (push_new out ss) ≡ (has_section t out || has_section t ss)
unfolding push_new has_section
has_section-push_new t out [] = ground arith
has_section-push_new t out (s ∷ ss) =
    has_section-push_new t (if has_section s out then out else out ++ s ∷ []) ss
    ∙ ground (arith, has_section-append t out s, same→eq ViewSection-discrete t s)

-- No section twice.
abbrev pub IsOnce : List ViewSection → Type 0
IsOnce [] = Unit
IsOnce (s ∷ ss) = (has_section s ss ≡ false) × IsOnce ss

IsOnce-append :
    (xs : List ViewSection) (s : ViewSection)
    → IsOnce xs
    → has_section s xs ≡ false
    → IsOnce (xs ++ s ∷ [])
unfolding has_section
IsOnce-append [] s once new = (refl, tt)
IsOnce-append (x ∷ xs) s once new = (
  ground (
    arith,
    has_section-append x xs s,
    same→eq ViewSection-discrete x s,
    same_refl ViewSection-discrete s,
  ),
  IsOnce-append xs s once.1 (ground arith),
)

push_new-IsOnce : (out ss : List ViewSection) → IsOnce out → IsOnce (push_new out ss)
unfolding push_new
push_new-IsOnce out [] once = once
push_new-IsOnce out (s ∷ ss) once = elim (Bool-cases (has_section s out)) [
  | inl old ↦ rw old (push_new-IsOnce out ss once)
  | inr new ↦ rw new (push_new-IsOnce (out ++ s ∷ []) ss (IsOnce-append out s once new))
]

-- A render delta names exactly the touched sections, each of them once.
pub view_delta_lem :
    (ss : List ViewSection)
    → IsOnce (view_delta ss)
      × ((t : ViewSection) → has_section t (view_delta ss) ≡ has_section t ss)
unfolding view_delta
view_delta_lem ss =
    (push_new-IsOnce [] ss tt, λ t. unfold has_section in has_section-push_new t [] ss)

module _ (T : ViewTypes) where
  -- Two models show the same in every section.
  abbrev pub Agrees : ViewModel T → ViewModel T → Type 0
  Agrees m n = (s : ViewSection) → patch T m s ≡ patch T n s

  -- If the core changed nothing outside the touched sections, a copy that agreed with the model
  -- before agrees with the model after, once the patches of the render delta are installed.
  pub patches-Agrees :
      (copy before after : ViewModel T) (touched : List ViewSection)
      → Agrees copy before
      → ((s : ViewSection) → has_section s touched ≡ false → patch T before s ≡ patch T after s)
      → Agrees (apply_all T (patches T after (view_delta touched)) copy) after
  patches-Agrees copy before after touched agrees rest s =
      patch-apply_all T after copy (view_delta touched) s
      ∙ elim (Bool-cases (has_section s touched)) [
        | inl hit ↦ rw ((view_delta_lem touched).1 s, hit)
        | inr miss ↦ rw ((view_delta_lem touched).1 s, miss) (agrees s ∙ rest s miss)
      ]
