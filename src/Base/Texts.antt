-- ===== src/Base/Texts.antt =====
-- Texts as lists of code units: the string functions of JavaScript that the source calls.
use Prim.Native.Nat.{ℕ}
use mathlib.Core.Path.{◌≡◌, refl, ap, ◌∙◌, subst}
use mathlib.Core.Logic.{◌↔◌}
use mathlib.Core.Bool.{Bool, true, false, ◌&&◌, ◌||◌}
use mathlib.Core.List.{List, [], ◌∷◌, ◌++◌, append-nil, append_assoc, reverse}
use native.Mathlib.Omega.{arith}
use dupdap_backend.Base.Tests.{if◌then◌else◌, ◌==◌, ==_iff, leb}
use dupdap_backend.Base.Lists.{All}

-- `text.split(separator)`, with the piece so far.
unfoldable pub split_on : (separator : ℕ) (piece text : List ℕ) → List (List ℕ)
split_on separator piece [] = piece ∷ []
split_on separator piece (c ∷ text) =
    let now = split_on separator (piece ++ c ∷ []) text in
    let next = split_on separator [] text in if c == separator then piece ∷ next else now

-- `text.startsWith(prefix)`
unfoldable pub starts_with : (text prefix : List ℕ) → Bool
starts_with text [] = true
starts_with [] (c ∷ prefix) = false
starts_with (d ∷ text) (c ∷ prefix) = d == c && starts_with text prefix

-- What `trim` takes away, by the code unit: the white space and the line terminators of ECMAScript.
abbrev pub is_space : ℕ → Bool
is_space c =
    c == 32
    || (leb 9 c && leb c 13)
    || c == 160
    || c == 5760
    || (leb 8192 c && leb c 8202)
    || c == 8232
    || c == 8233
    || c == 8239
    || c == 8287
    || c == 12288
    || c == 65279

-- `text.trimStart()` and `text.trim()`
unfoldable pub trim_start : List ℕ → List ℕ
trim_start [] = []
trim_start (c ∷ text) = let rest = trim_start text in if is_space c then rest else c ∷ text

unfoldable pub trim : List ℕ → List ℕ
unfolding trim_start
trim text = reverse (trim_start (reverse (trim_start text)))

-- `text === other`
unfoldable pub same_text : List ℕ → List ℕ → Bool
same_text [] [] = true
same_text (c ∷ text) (d ∷ other) = c == d && same_text text other
same_text text other = false

-- `!text`
abbrev pub is_empty : List ℕ → Bool
is_empty [] = true
is_empty (c ∷ text) = false

-- No code unit of the text is this one.
abbrev pub Lacks : ℕ → List ℕ → Type 0
Lacks c text = All (λ d. (d == c) ≡ false) text

pub starts_with-append : (prefix text : List ℕ) → starts_with (prefix ++ text) prefix ≡ true
unfolding starts_with
starts_with-append [] text = refl
starts_with-append (c ∷ prefix) text = ground (arith, starts_with-append prefix text)

-- A piece without the separator is taken whole.
pub split_on-piece :
    (separator : ℕ) (piece part rest : List ℕ)
    → Lacks separator part
    → split_on separator piece (part ++ separator ∷ rest)
      ≡ (piece ++ part) ∷ split_on separator [] rest
unfolding split_on
split_on-piece separator piece [] rest h = rw append-nil (ground arith)
split_on-piece separator piece (c ∷ part) rest h =
    rw (h.0, split_on-piece separator (piece ++ c ∷ []) part rest h.1, append_assoc) refl

pub split_on-last :
    (separator : ℕ) (piece part : List ℕ)
    → Lacks separator part
    → split_on separator piece part ≡ (piece ++ part) ∷ []
unfolding split_on
split_on-last separator piece [] h = rw append-nil refl
split_on-last separator piece (c ∷ part) h =
    rw (h.0, split_on-last separator (piece ++ c ∷ []) part h.1, append_assoc) refl

pub same_text_self : (text : List ℕ) → same_text text text ≡ true
unfolding same_text
same_text_self [] = refl
same_text_self (c ∷ text) = ground (arith, same_text_self text)

pub is_empty-nil : (text : List ℕ) → is_empty text ≡ true → text ≡ []
is_empty-nil [] h = refl
is_empty-nil (c ∷ text) h = cc

pub same_text-eq : (text other : List ℕ) → same_text text other ≡ true → text ≡ other
unfolding same_text
same_text-eq [] [] h = refl
same_text-eq [] (d ∷ other) h = cc
same_text-eq (c ∷ text) [] h = cc
same_text-eq (c ∷ text) (d ∷ other) h =
    let heads : (c == d) ≡ true = ground (arith, h) in
    let tails : same_text text other ≡ true = ground (arith, h, heads) in
    ap (λ k. k ∷ text) ((==_iff c d).0 heads) ∙ ap (λ t. d ∷ t) (same_text-eq text other tails)

pub same_text_iff : (text other : List ℕ) → (same_text text other ≡ true) ↔ (text ≡ other)
same_text_iff text other =
    (same_text-eq text other, λ e. subst (λ t. same_text text t ≡ true) e (same_text_self text))
