-- ===== src/Base/Text/Split.antt =====
-- The pieces of `strings.Split`, and putting them together again.
use Prim.Native.Char.{Char, code}
use Prim.Native.String
use Prim.Native.String.{String, [], ◌∷◌}
use mathlib.Core.Path.{◌≡◌, refl, ap, ◌∙◌, sym}
use mathlib.Core.Logic.{inl, inr}
use mathlib.Core.Bool.{Bool, true, false, not, ◌&&◌}
use mathlib.Core.List.{List, [], ◌∷◌, ◌++◌}
use native.Mathlib.Omega.{arith}
use text.Mathlib.Text.{starts_with}
use text.Mathlib.TextPositions.{starts_with-append}
use vault_secrets_webhook.Base.Lists.{init}
use text.Mathlib.TextEquality.{Char-path}
use text.Mathlib.TextLemmas.{nil-append, cons-append}
use vault_secrets_webhook.Base.Tests.{eqb, Bool-cases}
use vault_secrets_webhook.Base.Text.{split_pieces, split, join, contains}

-- The character does not occur.
unfoldable pub lacks_char : Char → String → Bool
lacks_char sep [] = true
lacks_char sep (c ∷ s) = not (eqb (code c) (code sep)) && lacks_char sep s

split_pieces-lacks_char :
    (sep : Char) (s : String) → lacks_char sep s ≡ true → split_pieces sep s ≡ (s, [])
unfolding split_pieces lacks_char
split_pieces-lacks_char sep [] l = refl
split_pieces-lacks_char sep (c ∷ s) l =
    let rest = split_pieces-lacks_char sep s (ground arith) in ground (arith, rest)

split_pieces-first :
    (sep : Char) (a b : String)
    → lacks_char sep a ≡ true
    → split_pieces sep (String.◌++◌ a (sep ∷ b)) ≡ (a, split b sep)
unfolding split_pieces lacks_char split
split_pieces-first sep [] b l = rw (nil-append (sep ∷ b)) (ground arith)
split_pieces-first sep (c ∷ a) b l =
    let rest = split_pieces-first sep a b (ground arith) in
    rw (cons-append c a (sep ∷ b)) (ground (arith, rest))

-- A text without the separator is one piece.
pub split-lacks_char : (sep : Char) (s : String) → lacks_char sep s ≡ true → split s sep ≡ s ∷ []
unfolding split
split-lacks_char sep s l = rw (split_pieces-lacks_char sep s l)

-- The text before the first separator is the first piece.
pub split-first :
    (sep : Char) (a b : String)
    → lacks_char sep a ≡ true
    → split (String.◌++◌ a (sep ∷ b)) sep ≡ a ∷ split b sep
unfolding split
split-first sep a b l = rw (split_pieces-first sep a b l)

-- A text with the separator has it somewhere first.
pub lacks_char-split :
    (sep : Char) (s : String)
    → lacks_char sep s ≡ false
    → (a b : String) × (s ≡ String.◌++◌ a (sep ∷ b)) × (lacks_char sep a ≡ true)
unfolding lacks_char
lacks_char-split sep [] l = cc
lacks_char-split sep (c ∷ s) l = elim (Bool-cases (eqb (code c) (code sep))) [
  | inl same ↦
      ([], s, ap (λ d. String.◌∷◌ d s) (Char-path c sep (ground arith)) ∙ sym (nil-append _), refl)
  | inr other ↦
      let (a, b, e, lacking) = lacks_char-split sep s (ground arith) in
      (c ∷ a, b, ap (λ t. String.◌∷◌ c t) e ∙ sym (cons-append c a _), ground arith)
]

-- There is a first piece.
pub split-cons :
    (s : String) (sep : Char) → (p : String) × (ps : List String) × (split s sep ≡ p ∷ ps)
unfolding split
split-cons s sep = (_, _, refl)

-- A separator as a text of its own.
pub single-append : (c : Char) (s : String) → String.◌++◌ (c ∷ []) s ≡ c ∷ s
single-append c s = cons-append c [] s ∙ ap (λ t. String.◌∷◌ c t) (nil-append s)

split_pieces-last :
    (sep : Char) (a b : String)
    → lacks_char sep b ≡ true
    → split_pieces sep (String.◌++◌ a (sep ∷ b))
      ≡ ((split_pieces sep a).0, (split_pieces sep a).1 ++ (b ∷ []))
unfolding split_pieces lacks_char
split_pieces-last sep [] b l =
    rw (nil-append (sep ∷ b)) (ground (arith, split_pieces-lacks_char sep b l))
split_pieces-last sep (c ∷ a) b l =
    let rest = split_pieces-last sep a b l in rw (cons-append c a (sep ∷ b)) (ground (arith, rest))

-- The text after the last separator is the last piece.
split-last :
    (sep : Char) (a b : String)
    → lacks_char sep b ≡ true
    → split (String.◌++◌ a (sep ∷ b)) sep ≡ split a sep ++ (b ∷ [])
unfolding split
split-last sep a b l = rw (split_pieces-last sep a b l)

join-cons :
    (sep : String) (c : Char) (first : String) (rest : List String)
    → join ((c ∷ first) ∷ rest) sep ≡ c ∷ join (first ∷ rest) sep
unfolding join
join-cons sep c first [] = refl
join-cons sep c first (x ∷ rest) = cons-append c first _

join-empty :
    (sep : Char) (first : String) (rest : List String)
    → join ([] ∷ first ∷ rest) (sep ∷ []) ≡ sep ∷ join (first ∷ rest) (sep ∷ [])
unfolding join
join-empty sep first rest = nil-append _ ∙ single-append sep (join (first ∷ rest) (sep ∷ []))

-- Joining the pieces gives the text.
join-split : (sep : Char) (s : String) → join (split s sep) (sep ∷ []) ≡ s
unfolding split split_pieces join
join-split sep [] = refl
join-split sep (c ∷ s) = elim (Bool-cases (eqb (code c) (code sep))) [
  | inl same ↦ rw same (
      join-empty sep (split_pieces sep s).0 (split_pieces sep s).1
      ∙ ap (λ t. sep ∷ t) (join-split sep s)
      ∙ ap (λ d. String.◌∷◌ d s) (sym (Char-path c sep (ground arith))))
  | inr other ↦ rw other (
      join-cons (sep ∷ []) c (split_pieces sep s).0 (split_pieces sep s).1
      ∙ ap (λ t. String.◌∷◌ c t) (join-split sep s))
]

init-last {ℓ} : {A : Type ℓ} (xs : List A) (x : A) → init (xs ++ (x ∷ [])) ≡ xs
unfolding init
init-last [] x = refl
init-last (y ∷ []) x = refl
init-last (y ∷ z ∷ xs) x = ap (λ l. y ∷ l) (init-last (z ∷ xs) x)

-- Dropping the last piece and joining the others drops the last separator and what follows it.
pub join-init-split :
    (sep : Char) (a b : String)
    → lacks_char sep b ≡ true
    → join (init (split (String.◌++◌ a (sep ∷ b)) sep)) (sep ∷ []) ≡ a
join-init-split sep a b l =
    ap (λ pieces. join (init pieces) (sep ∷ [])) (split-last sep a b l)
    ∙ ap (λ pieces. join pieces (sep ∷ [])) (init-last (split a sep) b)
    ∙ join-split sep a

begins : (sep : Char) (b : String) → starts_with (sep ∷ b) (sep ∷ []) ≡ true
begins sep b =
    ap (λ t. starts_with t (sep ∷ [])) (sym (single-append sep b)) ∙ starts_with-append (sep ∷ []) b

-- A text holds what stands in it.
pub contains-append :
    (sep : Char) (a b : String) → contains (String.◌++◌ a (sep ∷ b)) (sep ∷ []) ≡ true
unfolding contains
contains-append sep [] b = rw (nil-append (sep ∷ b)) (rw (begins sep b) refl)
contains-append sep (c ∷ a) b =
    rw (cons-append c a (sep ∷ b)) (ground (arith, contains-append sep a b))
