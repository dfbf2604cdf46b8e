-- ===== src/Domain/Validation/Recipient.antt =====
-- What the two recipient formats of `validateRecipient` are, without regular expressions.
use event_driven_ns.Prelude.{
  ℕ, ◌≤◌, true, List, [], ◌∷◌, ◌++◌, ◌≡◌, ◌↔◌, ◌∙◌, refl, ap, arith, length, length-append, ◌==◌,
  ==_iff,
}
use event_driven_ns.Domain.Regex.{Regex, class, cat, accepts}
use event_driven_ns.Domain.Regex.Correct.{
  Matches, char, both, Matches-cat, Matches-class, accepts_iff,
}
use event_driven_ns.Domain.Regex.Repeat.{
  AllIn, AllIn-append, exactly_class, at_most_class, at_least_class, class_at_least, class_range,
}
use event_driven_ns.Domain.Validation.{
  is_digit, is_nonzero_digit, is_letter, is_local, is_domain, e164_regex, email_regex,
}

-- A plus sign, a digit that is not zero, and six to fourteen digits.
pub record IsE164 (s : List ℕ) : Type 0 where
  pub first : ℕ
  pub rest : List ℕ
  pub shape : s ≡ b'+' ∷ first ∷ rest
  pub nonzero : is_nonzero_digit first ≡ true
  pub all_digits : AllIn is_digit rest
  pub at_least_six : 6 ≤ length rest
  pub at_most_fourteen : length rest ≤ 14

-- A local part, an at sign, a domain, a dot, and two letters or more.
pub record IsEmail (s : List ℕ) : Type 0 where
  pub local : List ℕ
  pub domain : List ℕ
  pub tld : List ℕ
  pub shape : s ≡ local ++ (b'@' ∷ (domain ++ (b'.' ∷ tld)))
  pub local_chars : AllIn is_local local
  pub local_some : 1 ≤ length local
  pub domain_chars : AllIn is_domain domain
  pub domain_some : 1 ≤ length domain
  pub tld_letters : AllIn is_letter tld
  pub tld_two : 2 ≤ length tld

module _ (c : ℕ) where
  -- A class of one character.
  literal-Matches : {s : List ℕ} → Matches (class (λ d. d == c)) s → s ≡ c ∷ []
  literal-Matches m = let (d, h, e) = Matches-class m in e ∙ ap (λ x. x ∷ []) ((==_iff d c).0 h)

  Matches-literal : Matches (class (λ d. d == c)) (c ∷ [])
  Matches-literal = char c ((==_iff c c).1 refl) refl

-- A literal character and then the rest.
literal_cat :
    (c : ℕ) {r : Regex} (s : List ℕ)
    → Matches (cat (class (λ d. d == c)) r) s
    → (t : List ℕ) × (s ≡ c ∷ t) × Matches r t
literal_cat c s m =
    let (u, t, a, b, e) = Matches-cat m in (t, e ∙ ap (λ v. v ++ t) (literal-Matches c a), b)

cat_literal :
    (c : ℕ) {r : Regex} (t : List ℕ) → Matches r t → Matches (cat (class (λ d. d == c)) r) (c ∷ t)
cat_literal c t m = both (c ∷ []) t (Matches-literal c) m refl

Matches-IsE164 : (s : List ℕ) → Matches e164_regex s → IsE164 s
unfolding e164_regex
Matches-IsE164 s m =
    let (t, e, a) = literal_cat b'+' s m in
    let (u, v, b, r, f) = Matches-cat a in
    let (d, h, g) = Matches-class b in
    let (x, y, p, q, k) = Matches-cat r in
    let (in_x, len_x) = exactly_class is_digit 6 x p in
    let (in_y, len_y) = at_most_class is_digit 8 y q in
    record {
      first = d;
      rest = v;
      shape = e ∙ ap (λ z. b'+' ∷ z) (f ∙ ap (λ z. z ++ v) g);
      nonzero = h;
      all_digits = rw k (AllIn-append is_digit x y in_x in_y);
      at_least_six = rw k (omega (arith, length-append x y));
      at_most_fourteen = rw k (omega (arith, length-append x y));
    }

IsE164-e164 : (s : List ℕ) → IsE164 s → Matches e164_regex s
unfolding e164_regex
IsE164-e164 s h = rw h.shape (
    cat_literal b'+' (h.first ∷ h.rest) (
      both (h.first ∷ []) h.rest (char h.first h.nonzero refl)
        (class_range is_digit 6 8 h.rest h.all_digits h.at_least_six h.at_most_fourteen) refl))

Matches-IsEmail : (s : List ℕ) → Matches email_regex s → IsEmail s
unfolding email_regex
Matches-IsEmail s m =
    let (l, t, a, b, e) = Matches-cat m in
    let (u, f, c) = literal_cat b'@' t b in
    let (d, v, p, q, g) = Matches-cat c in
    let (w, k, r) = literal_cat b'.' v q in
    let (in_l, len_l) = at_least_class is_local 1 l a in
    let (in_d, len_d) = at_least_class is_domain 1 d p in
    let (in_w, len_w) = at_least_class is_letter 2 w r in
    record {
      local = l;
      domain = d;
      tld = w;
      shape = cc;
      local_chars = in_l;
      local_some = len_l;
      domain_chars = in_d;
      domain_some = len_d;
      tld_letters = in_w;
      tld_two = len_w;
    }

IsEmail-email : (s : List ℕ) → IsEmail s → Matches email_regex s
unfolding email_regex
IsEmail-email s h =
    both h.local (b'@' ∷ (h.domain ++ (b'.' ∷ h.tld)))
      (class_at_least is_local 1 h.local h.local_chars h.local_some)
      (cat_literal b'@' (h.domain ++ (b'.' ∷ h.tld)) (
        both h.domain (b'.' ∷ h.tld)
          (class_at_least is_domain 1 h.domain h.domain_chars h.domain_some)
          (cat_literal b'.' h.tld (class_at_least is_letter 2 h.tld h.tld_letters h.tld_two)) refl))
      h.shape

-- The expression for telephone numbers accepts exactly the E.164 numbers with 7 to 15 digits.
pub e164_regex_iff : (s : List ℕ) → (accepts e164_regex s ≡ true) ↔ IsE164 s
e164_regex_iff s = (
  λ h. Matches-IsE164 s ((accepts_iff e164_regex s).0 h),
  λ h. (accepts_iff e164_regex s).1 (IsE164-e164 s h),
)

-- The expression for addresses accepts exactly the texts of the form local@domain.tld.
pub email_regex_iff : (s : List ℕ) → (accepts email_regex s ≡ true) ↔ IsEmail s
email_regex_iff s = (
  λ h. Matches-IsEmail s ((accepts_iff email_regex s).0 h),
  λ h. (accepts_iff email_regex s).1 (IsEmail-email s h),
)
