-- ===== src/Operators/Strings/Found.antt =====
-- What the string operators look for.
use mod_security.Operators.Strings.{begins_with, contains, ends_with, find, found_at, within_string}
use mod_security.Prelude.{
  Bool, Bool-cases, Option, [], ap, arith, drop, false, inl, inr, leb, length, length-append,
  length-drop, ltb, none, not, refl, some, subst, sym, take, take-append-drop, true, ℕ, ◌&&◌, ◌++◌,
  ◌+◌, ◌-◌, ◌||◌, ◌↔◌, ◌∙◌, ◌∷◌, ◌≡◌, ◌≤◌,
}
use mod_security.Prelude.Bytes.{Bytes, str_eq, str_eq_iff}
use mod_security.Utils.Replace.{starts_with}

starts_with-split : (p str : Bytes) → starts_with p str ≡ true → (b : Bytes) × (str ≡ p ++ b)
unfolding starts_with
starts_with-split [] str h = (str, refl)
starts_with-split (c ∷ p) [] h = absurd (ground arith)
starts_with-split (c ∷ p) (d ∷ str) h =
    let (b, e) = starts_with-split p str (ground arith) in
    let same : c ≡ d = ground arith in (b, rw (same, e) refl)

starts_with-append : (p b : Bytes) → starts_with p (p ++ b) ≡ true
unfolding starts_with
starts_with-append [] b = refl
starts_with-append (c ∷ p) b = ground (arith, starts_with-append p b)

-- `p` stands in `str`.
abbrev pub Occurs : Bytes → Bytes → Type 0
Occurs p str = (a : Bytes) × (b : Bytes) × (str ≡ a ++ (p ++ b))

abbrev is_found : Option ℕ → Bool
is_found none = false
is_found (some i) = true

found_later :
    (o : Option ℕ)
    → is_found (let z : Option ℕ = elim o [ some i ↦ some (i + 1) | none ↦ none ] in z) ≡ is_found o
found_later none = refl
found_later (some i) = refl

find-cons :
    (p : Bytes) (c : ℕ) (str : Bytes)
    → is_found (find p (c ∷ str)) ≡ (starts_with p (c ∷ str) || is_found (find p str))
unfolding find
find-cons p c str = elim (Bool-cases (starts_with p (c ∷ str))) [
  | inl e ↦ rw e refl
  | inr e ↦ rw e (found_later (find p str))
]

Occurs-cons : (p : Bytes) (c : ℕ) (str : Bytes) → Occurs p str → Occurs p (c ∷ str)
Occurs-cons p c str (a, b, e) = (c ∷ a, b, ap (λ l. c ∷ l) e)

find-Occurs : (p str : Bytes) → is_found (find p str) ≡ true → Occurs p str
find-Occurs [] [] h = ([], [], refl)
find-Occurs (c ∷ p) [] h = unfold find in absurd (ground arith)
find-Occurs p (c ∷ str) h =
    let later = find-Occurs p str in
    elim (Bool-cases (starts_with p (c ∷ str))) [
      | inl e ↦ let (b, q) = starts_with-split p (c ∷ str) e in ([], b, q)
      | inr e ↦ Occurs-cons p c str (later (ground (arith, find-cons p c str)))
    ]

find-prefix : (p b : Bytes) → is_found (find p (p ++ b)) ≡ true
find-prefix [] [] = unfold find in refl
find-prefix [] (c ∷ b) = unfold find starts_with in refl
find-prefix (c ∷ p) b = ground (arith, find-cons (c ∷ p) c (p ++ b), starts_with-append (c ∷ p) b)

find_complete : (p a b : Bytes) → is_found (find p (a ++ (p ++ b))) ≡ true
find_complete p [] b = find-prefix p b
find_complete p (c ∷ a) b = ground (arith, find-cons p c (a ++ (p ++ b)), find_complete p a b)

found_at-is_found : (o : Option ℕ) (n : ℕ) → (found_at o n).is_match ≡ is_found o
found_at-is_found none n = refl
found_at-is_found (some i) n = refl

contains-found : (p input : Bytes) → (contains p input).is_match ≡ is_found (find p input)
unfolding contains
contains-found p input = found_at-is_found (find p input) (length p)

within-found :
    (target : Bytes) (c : ℕ) (str : Bytes)
    → (within_string target (c ∷ str)).is_match ≡ is_found (find (c ∷ str) target)
unfolding within_string
within-found target c str = found_at-is_found (find (c ∷ str) target) (length (c ∷ str))

found_iff : (p str : Bytes) → (is_found (find p str) ≡ true) ↔ Occurs p str
found_iff p str = (find-Occurs p str, λ (a, b, e). rw e (find_complete p a b))

within_iff : (target str : Bytes) → ((within_string target str).is_match ≡ true) ↔ Occurs str target
within_iff target [] = ((λ h. ([], target, refl)), (λ h. unfold within_string in refl))
within_iff target (c ∷ str) =
    subst (λ b. (b ≡ true) ↔ Occurs (c ∷ str) target) (sym (within-found target c str))
      (found_iff (c ∷ str) target)

-- @contains matches just where its parameter stands somewhere in the value, and @within just where
-- the value stands somewhere in the parameter.
pub contains-within_iff :
    (p str : Bytes)
    → (((contains p str).is_match ≡ true) ↔ Occurs p str)
      × (((within_string p str).is_match ≡ true) ↔ Occurs str p)
contains-within_iff p str = (
  subst (λ b. (b ≡ true) ↔ Occurs p str) (sym (contains-found p str)) (found_iff p str),
  within_iff p str,
)

take-append_same : (p b : Bytes) → take (length p) (p ++ b) ≡ p
take-append_same [] b = refl
take-append_same (c ∷ p) b = ap (λ l. c ∷ l) (take-append_same p b)

drop-append_same : (a p : Bytes) → drop (length a) (a ++ p) ≡ p
drop-append_same [] p = refl
drop-append_same (c ∷ a) p = drop-append_same a p

take_whole : (p : Bytes) → take (length p) p ≡ p
take_whole [] = refl
take_whole (c ∷ p) = ap (λ l. c ∷ l) (take_whole p)

begins_with-test :
    (p str : Bytes)
    → (begins_with p str).is_match
      ≡ (not (ltb (length str) (length p)) && str_eq (take (length p) str) p)
unfolding begins_with
begins_with-test p str = ground arith

ends_with-test :
    (p str : Bytes)
    → (ends_with p str).is_match ≡ (
        leb (length p) (length str)
        && str_eq (take (length p) (drop (length str - length p) str)) p)
unfolding ends_with
ends_with-test p str = ground arith

begins_with-prefix :
    (p str : Bytes) → (begins_with p str).is_match ≡ true → (b : Bytes) × (str ≡ p ++ b)
begins_with-prefix p str h =
    let t = begins_with-test p str in
    let same = (str_eq_iff (take (length p) str) p).0 (ground arith) in
    (
      drop (length p) str,
      sym (take-append-drop (length p) str) ∙ ap (λ l. l ++ drop (length p) str) same,
    )

begins_with-append : (p b : Bytes) → (begins_with p (p ++ b)).is_match ≡ true
begins_with-append p b =
    let t = begins_with-test p (p ++ b) in
    let same = (str_eq_iff (take (length p) (p ++ b)) p).1 (take-append_same p b) in
    let more = length-append p b in ground arith

ends_with-suffix :
    (p str : Bytes) → (ends_with p str).is_match ≡ true → (a : Bytes) × (str ≡ a ++ p)
ends_with-suffix p str h =
    let t = ends_with-test p str in
    let at = length str - length p in
    let same = (str_eq_iff (take (length p) (drop at str)) p).0 (ground arith) in
    let fits : length p ≤ length str = ground arith in
    let left : length (drop at str) ≡ length p = omega (arith, length-drop at str, fits) in
    let whole : drop at str ≡ p =
      sym (take_whole (drop at str)) ∙ ap (λ n. take n (drop at str)) left ∙ same in
    (take at str, sym (take-append-drop at str) ∙ ap (λ l. take at str ++ l) whole)

ends_with-append : (a p : Bytes) → (ends_with p (a ++ p)).is_match ≡ true
ends_with-append a p =
    let t = ends_with-test p (a ++ p) in
    let more = length-append a p in
    let at : length (a ++ p) - length p ≡ length a = omega arith in
    let cut : take (length p) (drop (length (a ++ p) - length p) (a ++ p)) ≡ p =
      rw (at, drop-append_same a p) (take_whole p) in
    let same =
      (str_eq_iff (take (length p) (drop (length (a ++ p) - length p) (a ++ p))) p).1 cut in
    ground arith

-- @beginsWith matches just where the value is its parameter with something behind it, and @endsWith
-- just where it is its parameter with something before it.
begins_with-ends_with_iff :
    (p str : Bytes)
    → (((begins_with p str).is_match ≡ true) ↔ ((b : Bytes) × (str ≡ p ++ b)))
      × (((ends_with p str).is_match ≡ true) ↔ ((a : Bytes) × (str ≡ a ++ p)))
begins_with-ends_with_iff p str = (
  (
    begins_with-prefix p str,
    λ (b, e). subst (λ z. (begins_with p z).is_match ≡ true) (sym e) (begins_with-append p b),
  ),
  (
    ends_with-suffix p str,
    λ (a, e). subst (λ z. (ends_with p z).is_match ≡ true) (sym e) (ends_with-append a p),
  ),
)
