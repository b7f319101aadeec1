-- ===== src/Text.antt =====
-- Python's `str` as the list of its code points, slices of it, and what the Unicode database says
-- of a code point. The database is not part of the repository: it is the record `Unicode`.
use Prim.Native.Char.{code}
use Prim.Native.String.{String}
use p_r_i_s_m.Prelude.{
  ◌+◌, ◌*◌, ◌/◌, ltb, zero, suc, ℕ, ◌-◌, List, [], ◌∷◌, Bool, true, false, ◌&&◌, ◌≡◌, refl, ◌↔◌,
  take, drop, Eq, Eq-ℕ, arith, nat_eq, ◌||◌, if◌then◌else◌,
}

abbrev pub Text : Type 0
Text = List ℕ

unfoldable pub text_eq : Text → Text → Bool
text_eq [] [] = true
text_eq (a ∷ s) (b ∷ t) = nat_eq a b && text_eq s t
text_eq _ _ = false

text_eq_self : (s : Text) → text_eq s s ≡ true
unfolding text_eq
text_eq_self [] = refl
text_eq_self (a ∷ s) = ground (arith, text_eq_self s)

eq_of_text_eq : (s t : Text) → text_eq s t ≡ true → s ≡ t
unfolding text_eq
eq_of_text_eq [] [] h = refl
eq_of_text_eq (a ∷ s) (b ∷ t) h = ground (arith, eq_of_text_eq s t)
eq_of_text_eq [] (b ∷ t) h = ground arith
eq_of_text_eq (a ∷ s) [] h = ground arith

pub text_eq_iff : (s t : Text) → (text_eq s t ≡ true) ↔ (s ≡ t)
text_eq_iff s t = (eq_of_text_eq s t, λ p. rw p (text_eq_self t))

instance abbrev pub Eq-Text : Eq Text
unfolding text_eq
Eq-Text = record { beq = text_eq; beq_iff = text_eq_iff }

-- `text[a:b]` for offsets that are not negative.
abbrev pub slice {ℓ} : {A : Type ℓ} → List A → ℕ → ℕ → List A
slice xs a b = take (b - a) (drop a xs)

pub record Unicode : Type 0 where
  -- the class `\w` of `re`
  pub is_word : ℕ → Bool
  -- `str.isspace` of one character
  pub is_space : ℕ → Bool
  -- `unicodedata.normalize("NFKD", word).casefold()`
  pub fold : Text → Text

-- A text written as a literal.
abbrev pub codes : String → Text
codes String.[] = []
codes (String.◌∷◌ c s) = code c ∷ codes s

-- `text.strip()`
unfoldable pub strip_left : Unicode → Text → Text
strip_left u [] = []
strip_left u (c ∷ text) = if u.is_space c then strip_left u text else c ∷ text

unfoldable pub strip_right : Unicode → Text → Text
strip_right u [] = []
strip_right u (c ∷ text) = elim (strip_right u text) [
  | [] ↦ if u.is_space c then [] else c ∷ []
  | d ∷ rest ↦ c ∷ d ∷ rest
]

unfoldable pub strip : Unicode → Text → Text
unfolding strip_left strip_right
strip u text = strip_right u (strip_left u text)

-- `text.startswith(prefix)` and `text.endswith(suffix)`
unfoldable pub starts_with : Text → Text → Bool
starts_with [] text = true
starts_with (c ∷ prefix) [] = false
starts_with (c ∷ prefix) (d ∷ text) = nat_eq c d && starts_with prefix text

unfoldable pub ends_with : Text → Text → Bool
unfolding text_eq
ends_with suffix [] = text_eq suffix []
ends_with suffix (c ∷ text) = text_eq suffix (c ∷ text) || ends_with suffix text

-- `str(n)` of a number: its decimal digits. A number is larger than the number of its digits, so it
-- is fuel enough.
unfoldable pub digits : ℕ → ℕ → Text → Text
digits zero n shown = shown
digits (suc fuel) n shown =
    let rest = digits fuel (n / 10) ((48 + (n - 10 * (n / 10))) ∷ shown) in
    if ltb n 10 then (48 + n) ∷ shown else rest

unfoldable pub decimal : ℕ → Text
decimal n = digits (suc n) n []
