-- ===== src/Prelude/Strings.antt =====
-- What the program uses of Go's package `strings`, over code points.
use Prim.Native.Nat.{ℕ}
use mathlib.Core.Path.{◌≡◌, refl, ap, ◌∙◌}
use mathlib.Core.Logic.{◌≢◌, inl, inr}
use mathlib.Core.Bool.{Bool, true, false, ◌&&◌, ◌||◌}
use mathlib.Core.List.{List, [], ◌∷◌, ◌++◌}
use native.Mathlib.Omega.{arith}
use birb_nest.Prelude.Lists.{All}
use birb_nest.Prelude.Tests.{leb, ◌==◌, if◌then◌else◌, Bool-cases}
use birb_nest.Prelude.Texts.{Text}

-- unicode.IsSpace
unfoldable pub is_space : ℕ → Bool
is_space c =
    (leb 9 c && leb c 13)
    || (c == 32)
    || (c == 0x85)
    || (c == 0xA0)
    || (c == 0x1680)
    || (leb 0x2000 c && leb c 0x200A)
    || (leb 0x2028 c && leb c 0x2029)
    || (c == 0x202F)
    || (c == 0x205F)
    || (c == 0x3000)

trim_left : Text → Text
trim_left [] = []
trim_left (c ∷ s) = let rest = trim_left s in if is_space c then rest else c ∷ s

-- One space less where everything behind it is gone.
drop_last_space : ℕ → Text → Text
drop_last_space c [] = if is_space c then [] else c ∷ []
drop_last_space c (d ∷ s) = c ∷ d ∷ s

trim_right : Text → Text
trim_right [] = []
trim_right (c ∷ s) = drop_last_space c (trim_right s)

-- strings.TrimSpace
unfoldable pub trim_space : Text → Text
unfolding trim_left trim_right drop_last_space is_space
trim_space s = trim_right (trim_left s)

drop_last_space_idem :
    (c : ℕ) (t : Text) → trim_right t ≡ t → trim_right (drop_last_space c t) ≡ drop_last_space c t
unfolding trim_right drop_last_space
drop_last_space_idem c [] h = ground arith
drop_last_space_idem c (d ∷ t) h = rw h

trim_right_idem : (s : Text) → trim_right (trim_right s) ≡ trim_right s
unfolding trim_right
trim_right_idem [] = refl
trim_right_idem (c ∷ s) = drop_last_space_idem c (trim_right s) (trim_right_idem s)

-- The text does not begin with a space.
abbrev Bare : Text → Type 0
Bare [] = Unit {0}
Bare (c ∷ s) = is_space c ≡ false

trim_left-Bare : (s : Text) → Bare (trim_left s)
unfolding trim_left
trim_left-Bare [] = tt
trim_left-Bare (c ∷ s) = ground (arith, trim_left-Bare s)

trim_left_of-Bare : (s : Text) → Bare s → trim_left s ≡ s
unfolding trim_left
trim_left_of-Bare [] h = refl
trim_left_of-Bare (c ∷ s) h = rw h

drop_last_space-Bare : (c : ℕ) (t : Text) → is_space c ≡ false → Bare (drop_last_space c t)
unfolding drop_last_space
drop_last_space-Bare c [] h = rw h h
drop_last_space-Bare c (d ∷ t) h = h

trim_right-Bare : (s : Text) → Bare s → Bare (trim_right s)
unfolding trim_right
trim_right-Bare [] h = tt
trim_right-Bare (c ∷ s) h = drop_last_space-Bare c (trim_right s) h

-- What was trimmed stays as it is.
pub trim_space_idem : (s : Text) → trim_space (trim_space s) ≡ trim_space s
unfolding trim_space
trim_space_idem s =
    ap trim_right (trim_left_of-Bare _ (trim_right-Bare _ (trim_left-Bare s)))
    ∙ trim_right_idem (trim_left s)

-- strings.Join(parts, sep), for a separator of one character
unfoldable pub join : ℕ → List Text → Text
join c [] = []
join c (p ∷ []) = p
join c (p ∷ q ∷ ps) = p ++ (c ∷ join c (q ∷ ps))

extend_head : ℕ → List Text → List Text
extend_head x [] = (x ∷ []) ∷ []
extend_head x (p ∷ ps) = (x ∷ p) ∷ ps

-- strings.Split(s, sep), for a separator of one character
unfoldable pub split : ℕ → Text → List Text
unfolding extend_head
split c [] = [] ∷ []
split c (x ∷ s) = let rest = split c s in if x == c then [] ∷ rest else extend_head x rest

-- strings.HasPrefix(s, prefix)
unfoldable pub has_prefix : Text → Text → Bool
has_prefix s [] = true
has_prefix [] (p ∷ ps) = false
has_prefix (x ∷ s) (p ∷ ps) = x == p && has_prefix s ps

-- strings.Contains(s, sub)
unfoldable pub contains : Text → Text → Bool
unfolding has_prefix
contains [] sub = has_prefix [] sub
contains (x ∷ s) sub = has_prefix (x ∷ s) sub || contains s sub

-- The text behind a prefix that is there.
unfoldable pub skip : Text → Text → Text
skip s [] = s
skip [] (p ∷ ps) = []
skip (x ∷ s) (p ∷ ps) = skip s ps

-- strings.TrimPrefix(s, prefix)
unfoldable pub trim_prefix : Text → Text → Text
unfolding has_prefix skip
trim_prefix s p = if has_prefix s p then skip s p else s

-- No character of the text is the separator.
abbrev pub Free : ℕ → Text → Type 0
Free c = All (λ x. x ≢ c)

pub has_prefix-append : (p s : Text) → has_prefix (p ++ s) p ≡ true
unfolding has_prefix
has_prefix-append [] [] = refl
has_prefix-append [] (x ∷ s) = refl
has_prefix-append (c ∷ p) s = ground (arith, has_prefix-append p s)

pub skip-append : (p s : Text) → skip (p ++ s) p ≡ s
unfolding skip
skip-append [] [] = refl
skip-append [] (x ∷ s) = refl
skip-append (c ∷ p) s = skip-append p s

pub trim_prefix-append : (p s : Text) → trim_prefix (p ++ s) p ≡ s
unfolding trim_prefix
trim_prefix-append p s = rw (has_prefix-append p s) (skip-append p s)

-- A text with the prefix is the prefix and what `skip` leaves.
pub append-skip : (s p : Text) → has_prefix s p ≡ true → s ≡ p ++ skip s p
unfolding has_prefix skip
append-skip s [] h = refl
append-skip [] (p ∷ ps) h = cc
append-skip (x ∷ s) (p ∷ ps) h = ground (arith, append-skip s ps)

-- Splitting a part that ends the text, and a part that a separator ends.
split_last : (c : ℕ) (p : Text) → Free c p → split c p ≡ p ∷ []
unfolding split
split_last c [] f = refl
split_last c (x ∷ p) f = ground (arith, split_last c p f.1)

split_first : (c : ℕ) (p s : Text) → Free c p → split c (p ++ (c ∷ s)) ≡ p ∷ split c s
unfolding split
split_first c [] s f = ground arith
split_first c (x ∷ p) s f = ground (arith, split_first c p s f.1)

-- Parts without the separator are found again.
pub split-join :
    (c : ℕ) (p : Text) (ps : List Text)
    → Free c p
    → All (Free c) ps
    → split c (join c (p ∷ ps)) ≡ p ∷ ps
unfolding join
split-join c p [] f fs = split_last c p f
split-join c p (q ∷ ps) f fs =
    split_first c p (join c (q ∷ ps)) f ∙ ap (λ r. p ∷ r) (split-join c q ps fs.0 fs.1)

join-extend_head : (c x : ℕ) (ps : List Text) → ps ≢ [] → join c (extend_head x ps) ≡ x ∷ join c ps
unfolding join extend_head
join-extend_head c x [] h = absurd (h refl)
join-extend_head c x (p ∷ []) h = refl
join-extend_head c x (p ∷ q ∷ ps) h = refl

join_empty_head : (c : ℕ) (ps : List Text) → ps ≢ [] → join c ([] ∷ ps) ≡ c ∷ join c ps
unfolding join
join_empty_head c [] h = absurd (h refl)
join_empty_head c (p ∷ ps) h = refl

extend_head-ne-nil : (x : ℕ) (ps : List Text) → extend_head x ps ≢ []
unfolding extend_head
extend_head-ne-nil x [] e = cc
extend_head-ne-nil x (p ∷ ps) e = cc

pub split-ne-nil : (c : ℕ) (s : Text) → split c s ≢ []
unfolding split
split-ne-nil c [] e = cc
split-ne-nil c (x ∷ s) e = ground (arith, extend_head-ne-nil x (split c s))

-- Joining what was split gives the text back.
pub join-split : (c : ℕ) (s : Text) → join c (split c s) ≡ s
unfolding split join
join-split c [] = refl
join-split c (x ∷ s) = elim (Bool-cases (x == c)) [
  | inl e ↦ rw e (join_empty_head c (split c s) (split-ne-nil c s) ∙ ground (arith, join-split c s))
  | inr e ↦
      rw e (join-extend_head c x (split c s) (split-ne-nil c s) ∙ ap (λ r. x ∷ r) (join-split c s))
]

-- What stands before the first separator is determined.
pub Free-cancel :
    (c : ℕ) (p q s t : Text) → Free c p → Free c q → p ++ (c ∷ s) ≡ q ++ (c ∷ t) → (p ≡ q) × (s ≡ t)
Free-cancel c [] [] s t f g e = ground arith
Free-cancel c [] (y ∷ q) s t f g e = absurd (g.0 (ground arith))
Free-cancel c (x ∷ p) [] s t f g e = absurd (f.0 (ground arith))
Free-cancel c (x ∷ p) (y ∷ q) s t f g e = ground (arith, Free-cancel c p q s t f.1 g.1)

pub append_cancel_left : (p s t : Text) → p ++ s ≡ p ++ t → s ≡ t
append_cancel_left [] s t e = e
append_cancel_left (x ∷ p) s t e = append_cancel_left p s t (ground arith)
