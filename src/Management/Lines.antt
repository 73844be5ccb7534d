-- ===== src/Management/Lines.antt =====
-- src/management.rs: the lines that the two sides of a connection write and read.
use dotdns.Prelude.{
  ℕ, ◌≡◌, refl, ap, ◌∙◌, Bool, true, false, [], ◌∷◌, ◌++◌, ok, if◌then◌else◌, ◌==◌, ◌&&◌, arith,
}
use dotdns.Management.{ManagementResponse, Json, TextWriter, write_line}
use dotdns.Management.Client.{read_response}
use dotdns.Text.{Text, codes, trim, trim_start, trim_end, is_empty, is_whitespace, contains_char}

-- `read_line` on a reader to which a text came: up to the first line break, which it keeps.
unfoldable pub first_line : Text → Text
first_line [] = []
first_line (c ∷ s) = let rest = first_line s in if c == 10 then c ∷ [] else c ∷ rest

first_line_lem :
    (t : Text) → contains_char t 10 ≡ false → first_line (t ++ codes "\n") ≡ t ++ codes "\n"
unfolding first_line contains_char
first_line_lem [] h = refl
first_line_lem (c ∷ t) h = ground (arith, first_line_lem t)

and_false : (b : Bool) → (b && false) ≡ false
and_false true = refl
and_false false = refl

pub not_empty : (t : Text) (c : ℕ) → is_empty (t ++ (c ∷ [])) ≡ false
unfolding is_empty
not_empty [] c = refl
not_empty (d ∷ t) c = refl

trim_end-cons :
    (c : ℕ) (t : Text) → is_empty (trim_end t) ≡ false → trim_end (c ∷ t) ≡ c ∷ trim_end t
unfolding trim_end
trim_end-cons c t h = rw (h, and_false) refl

brace : trim_end (b'}' ∷ 10 ∷ []) ≡ b'}' ∷ []
unfolding trim_end is_whitespace is_empty
brace = refl

-- White space is trimmed behind a character that is none.
trim_end-brace : (t : Text) → trim_end ((t ++ (b'}' ∷ [])) ++ codes "\n") ≡ t ++ (b'}' ∷ [])
trim_end-brace [] = brace
trim_end-brace (c ∷ t) =
    let ih = trim_end-brace t in
    trim_end-cons c _ (ap is_empty ih ∙ not_empty t b'}') ∙ ap (◌∷◌ c) ih

trim-object :
    (body : Text)
    → trim ((b'{' ∷ (body ++ (b'}' ∷ []))) ++ codes "\n") ≡ b'{' ∷ (body ++ (b'}' ∷ []))
unfolding trim trim_start is_whitespace
trim-object body = trim_end-brace (b'{' ∷ body)

-- A line with an object is read as the object.
pub line-object :
    {W A : Type 0} (io : TextWriter W) (json : Json A) (a : A) (t : Text) (w : W)
    → json.to_string a ≡ ok t
    → io.sent w ≡ t ++ codes "\n"
    → (first_line (io.sent w) ≡ t ++ codes "\n")
      × (trim (first_line (io.sent w)) ≡ t)
      × (is_empty t ≡ false)
      × (json.from_str t ≡ ok a)
unfolding is_empty
line-object io json a t w e sent =
    let (body, object, one_line) = json.to_string-object a t e in
    let line = ap first_line sent ∙ first_line_lem t one_line in
    (
      line,
      ap trim line ∙ rw object (trim-object body),
      rw object refl,
      json.from_str-to_string a t e,
    )

module _ {W : Type 0} (io : TextWriter W) (new : W) where
  -- Nothing fails on the way.
  pub record IsReliable : Type 0 where
    pub unsent : io.sent new ≡ []
    pub writes : (t : Text) (w : W) → (w' : W) × (io.write_all t w ≡ ok w')
    pub flushes : (w : W) → (w' : W) × (io.flush w ≡ ok w')

  pub write_line-sent :
      IsReliable
      → (t : Text) → (w : W) × (write_line io t new ≡ ok w) × (io.sent w ≡ t ++ codes "\n")
  unfolding write_line
  write_line-sent rel t =
      let (w1, e1) = rel.writes t new in
      let (w2, e2) = rel.writes (codes "\n") w1 in
      let (w3, e3) = rel.flushes w2 in
      (
        w3,
        rw (e1, e2, e3) refl,
        io.sent-flush w2 w3 e3
            ∙ io.sent-write_all (codes "\n") w1 w2 e2
            ∙ ap (λ start. start ++ codes "\n")
                (io.sent-write_all t new w1 e1 ∙ rw rel.unsent refl),
      )

pub read_response-object :
    (responses : Json ManagementResponse) (line t : Text) (resp : ManagementResponse)
    → line ≡ t ++ codes "\n"
    → trim line ≡ t
    → is_empty t ≡ false
    → responses.from_str t ≡ ok resp
    → read_response responses (ok line) ≡ ok resp
unfolding read_response
read_response-object responses line t resp e trimmed full parsed =
    rw (read_response, trimmed, full, parsed, ap is_empty e ∙ not_empty t 10) refl
