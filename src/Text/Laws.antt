-- ===== src/Text/Laws.antt =====
-- Laws of the text operations: equality is decided, and a text without white space is one word.
use dotdns.Map.{Equality}
use dotdns.Prelude.{◌++◌, sym, ◌∙◌, ◌||◌, ◌&&◌, ap, ℕ, ◌≡◌, refl, ◌↔◌, true, false, [], ◌∷◌, arith}
use dotdns.Text.{
  ends_with_char, drop_last, contains_text, starts_with, Text, eq_text, trim_start, trim_end, trim,
  before_char, contains_char, no_whitespace, split_whitespace,
}

pub eq_text_sound : (s t : Text) → eq_text s t ≡ true → s ≡ t
unfolding eq_text
eq_text_sound [] [] h = refl
eq_text_sound [] (d ∷ t) h = cc
eq_text_sound (c ∷ s) [] h = cc
eq_text_sound (c ∷ s) (d ∷ t) h = ground (arith, eq_text_sound s t)

pub eq_text_refl : (s : Text) → eq_text s s ≡ true
unfolding eq_text
eq_text_refl [] = refl
eq_text_refl (c ∷ s) = ground (arith, eq_text_refl s)

pub eq_text_iff : (s t : Text) → (eq_text s t ≡ true) ↔ (s ≡ t)
eq_text_iff s t = (eq_text_sound s t, λ e. rw (← e) (eq_text_refl s))

trim_start_lem : (s : Text) → no_whitespace s ≡ true → trim_start s ≡ s
unfolding no_whitespace trim_start
trim_start_lem [] h = refl
trim_start_lem (c ∷ s) h = ground arith

trim_end_lem : (s : Text) → no_whitespace s ≡ true → trim_end s ≡ s
unfolding no_whitespace trim_end
trim_end_lem [] h = refl
trim_end_lem (c ∷ s) h = ground (arith, trim_end_lem s)

pub trim_lem : (s : Text) → no_whitespace s ≡ true → trim s ≡ s
unfolding trim
trim_lem s h = rw (trim_start_lem s h) (trim_end_lem s h)

pub before_char_lem : (s : Text) (d : ℕ) → contains_char s d ≡ false → before_char s d ≡ s
unfolding before_char contains_char
before_char_lem [] d h = refl
before_char_lem (c ∷ s) d h = ground (arith, before_char_lem s d)

pub split_whitespace_lem :
    (c : ℕ) (s : Text) → no_whitespace (c ∷ s) ≡ true → split_whitespace (c ∷ s) ≡ (c ∷ s) ∷ []
unfolding no_whitespace split_whitespace
split_whitespace_lem c [] h = ground arith
split_whitespace_lem c (d ∷ s) h = ground (arith, split_whitespace_lem d s)

pub contains_char-append :
    (s t : Text) (d : ℕ) → contains_char (s ++ t) d ≡ (contains_char s d || contains_char t d)
unfolding contains_char
contains_char-append [] t d = refl
contains_char-append (c ∷ s) t d = ground (arith, contains_char-append s t d)

pub no_whitespace-append :
    (s t : Text) → no_whitespace (s ++ t) ≡ (no_whitespace s && no_whitespace t)
unfolding no_whitespace
no_whitespace-append [] t = refl
no_whitespace-append (c ∷ s) t = ground (arith, no_whitespace-append s t)

pub ends_with_char-append : (s : Text) (d : ℕ) → ends_with_char (s ++ (d ∷ [])) d ≡ true
unfolding ends_with_char
ends_with_char-append [] d = ground arith
ends_with_char-append (c ∷ []) d = ground arith
ends_with_char-append (c ∷ c' ∷ s) d = ends_with_char-append (c' ∷ s) d

pub drop_last-append : (s : Text) (d : ℕ) → drop_last (s ++ (d ∷ [])) ≡ s
unfolding drop_last
drop_last-append [] d = refl
drop_last-append (c ∷ []) d = refl
drop_last-append (c ∷ c' ∷ s) d = ap (◌∷◌ c) (drop_last-append (c' ∷ s) d)

-- A text without a character holds no text that begins with it.
pub contains_text_absent :
    (s : Text) (d : ℕ) (p : Text) → contains_char s d ≡ false → contains_text s (d ∷ p) ≡ false
unfolding contains_text contains_char starts_with
contains_text_absent [] d p h = refl
contains_text_absent (c ∷ s) d p h = ground (arith, contains_text_absent s d p)

pub starts_with_absent :
    (s : Text) (d : ℕ) (p : Text) → contains_char s d ≡ false → starts_with s (d ∷ p) ≡ false
unfolding contains_char starts_with
starts_with_absent [] d p h = refl
starts_with_absent (c ∷ s) d p h = ground arith

pub text_Equality : Equality eq_text
text_Equality = record {
  eq_refl = eq_text_refl;
  eq_sym = λ s t h. ap (λ u. eq_text u s) (sym (eq_text_sound s t h)) ∙ eq_text_refl s;
  eq_trans = λ s t u h k. ap (λ v. eq_text v u) (eq_text_sound s t h) ∙ k;
}
