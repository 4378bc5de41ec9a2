-- ===== src/Protocol/Wire.antt =====
-- Reading one JSON value, and printing a result (protocol/protocol.go: DecodeStrict, Render,
-- NewRequestID). encoding/json, text/tabwriter, hexadecimal digits and the random bytes are
-- parameters.
use Prim.Native.String.{String, ◌++◌ as append_str}
use gantry_core.Base.{
  ℕ, zero, suc, ◌+◌, ◌≤◌, ◌≡◌, refl, sym, ap, subst, inl, inr, Bool, true, false, if◌then◌else◌,
  ltb, length, Option, none, some, map, str_eq, List, [], ◌∷◌, arith, Bool-cases,
}
use gantry_core.Base.Int.{ℤ, pos, negsuc}
use gantry_core.Base.Result.{Result, ok, err, ◌>>=◌, >>=-eq-ok}

pub data DecodeError : Type 0 where
  read_failed : String → DecodeError
  too_long trailing : DecodeError
  malformed : String → DecodeError

-- What a reader gives before it ends, or before it fails.
pub record Reader : Type 0 where
  pub content : List ℕ
  pub failure : Option String

abbrev pub default_max_body : ℕ
default_max_body = 1_048_576

-- `if maximum <= 0`
unfoldable pub body_limit : ℤ → ℕ
body_limit (negsuc n) = default_max_body
body_limit (pos zero) = default_max_body
body_limit (pos (suc n)) = suc n

abbrev pub first_bytes : ℕ → List ℕ → List ℕ
first_bytes zero bs = []
first_bytes (suc n) [] = []
first_bytes (suc n) (b ∷ bs) = b ∷ first_bytes n bs

-- `io.ReadAll` of a `io.LimitReader`: an error after the limit is not met.
unfoldable pub read_limited : ℕ → Reader → Result DecodeError (List ℕ)
read_limited limit r =
    if ltb (length r.content) limit
    then (elim r.failure [ none ↦ ok r.content | some e ↦ err (read_failed e) ])
    else ok (first_bytes limit r.content)

-- The first value, the bytes after it, and whether they hold none but white space.
module _ {A : Type 0} (decode : List ℕ → Result String (A × List ℕ)) (at_end : List ℕ → Bool) where
  unfoldable pub decode_one : List ℕ → Result DecodeError A
  decode_one body = elim (decode body) [
    | err e ↦ err (malformed e)
    | ok (value, rest) ↦ if at_end rest then ok value else err trailing
  ]

  unfoldable pub decode_body : ℕ → List ℕ → Result DecodeError A
  unfolding decode_one
  decode_body maximum body = if ltb maximum (length body) then err too_long else decode_one body

  -- `DecodeStrict`
  unfoldable pub decode_strict : Reader → ℤ → Result DecodeError A
  unfolding read_limited body_limit decode_body
  decode_strict r maximum = do
    body ← read_limited (body_limit maximum + 1) r
    decode_body (body_limit maximum) body

  length-first_bytes : (n : ℕ) (bs : List ℕ) → n ≤ length bs → length (first_bytes n bs) ≡ n
  length-first_bytes zero bs h = refl
  length-first_bytes (suc n) [] h = absurd (omega arith)
  length-first_bytes (suc n) (b ∷ bs) h = ap (λ n. suc n) (length-first_bytes n bs (omega arith))

  -- What is decoded was the whole content of a reader that did not fail.
  read_limited-whole :
      (limit : ℕ) (r : Reader) (body : List ℕ)
      → read_limited (limit + 1) r ≡ ok body
      → length body ≤ limit
      → (r.content ≡ body) × (r.failure ≡ none)
  unfolding read_limited
  read_limited-whole limit r body h l = elim (Bool-cases (ltb (length r.content) (limit + 1))) [
    | inl y ↦ by_failure r.failure refl (rw y at h)
    | inr y ↦
        let e : first_bytes (limit + 1) r.content ≡ body = (let k = rw y at h in cc) in
        let n = length-first_bytes (limit + 1) r.content (ground (arith, y)) in
        let m = ap (λ x. length x) e in absurd (omega arith)
  ]
    where
      by_failure :
          (x : Option String)
          → r.failure ≡ x
          → (elim x [ none ↦ ok r.content | some e ↦ err (read_failed e) ]) ≡ ok body
          → (r.content ≡ body) × (r.failure ≡ none)
      by_failure none e k = (cc, e)
      by_failure (some x) e k = absurd (cc)

  decode_body-one :
      (limit : ℕ) (body : List ℕ) (v : A)
      → decode_body limit body ≡ ok v
      → (length body ≤ limit) × (decode_one body ≡ ok v)
  unfolding decode_body
  decode_body-one limit body v h = elim (Bool-cases (ltb limit (length body))) [
    | inl y ↦ absurd (let k = rw y at h in cc)
    | inr y ↦ (ground (arith, y), rw y at h)
  ]

  -- Only a whole body within the limit is decoded: the reader did not fail, and its content is one
  -- value with nothing but white space after it.
  pub decode_strict-whole :
      (r : Reader) (maximum : ℤ) (v : A)
      → decode_strict r maximum ≡ ok v
      → (r.failure ≡ none) × (length r.content ≤ body_limit maximum) × (decode_one r.content ≡ ok v)
  unfolding decode_strict
  decode_strict-whole r maximum v h =
      let (body, x, y) = >>=-eq-ok (read_limited (body_limit maximum + 1) r) _ h in
      let (l, one) = decode_body-one (body_limit maximum) body v y in
      let (whole, calm) = read_limited-whole (body_limit maximum) r body x l in
      (
        calm,
        subst (λ b. length b ≤ body_limit maximum) (sym whole) l,
        subst (λ b. decode_one b ≡ ok v) (sym whole) one,
      )

pub record Table : Type 0 where
  pub columns : List String
  pub rows : List (List String)

-- What `Render` tells apart.
pub data Value : Type 0 where
  table_value : Table → Value
  text_value : String → Value
  other_value : Value

pub data RenderError : Type 0 where
  write_failed : String → RenderError
  not_printable : RenderError

-- `strings.Join(row, "\t")`
unfoldable pub tabbed : List String → String
tabbed [] = ""
tabbed (s ∷ []) = s
tabbed (s ∷ t ∷ ts) = append_str s (append_str "\t" (tabbed (t ∷ ts)))

abbrev pub line : String → String
line s = append_str s "\n"

-- The lines that a table hands to `tabwriter`.
unfoldable pub table_lines : Table → List String
unfolding tabbed
table_lines t = elim t.columns [
  | [] ↦ map (λ r. line (tabbed r)) t.rows
  | c ∷ cs ↦ line (tabbed (c ∷ cs)) ∷ map (λ r. line (tabbed r)) t.rows
]

module _ {W : Type 0} (write : String → W → W × Option String)
    (encode : Value → W → W × Option String) (align : List String → String) where
  abbrev written : W × Option String → W × Option RenderError
  written (w, none) = (w, none)
  written (w, some e) = (w, some (write_failed e))

  -- The loop over the rows ends at the first error.
  unfoldable pub write_rows : List (List String) → W → W × Option RenderError
  unfolding tabbed
  write_rows [] w = (w, none)
  write_rows (r ∷ rs) w =
      let (w', e) = write (line (tabbed r)) w in
      let rest = write_rows rs w' in elim e [ none ↦ rest | some x ↦ (w', some (write_failed x)) ]

  unfoldable pub render_value : Bool → Value → W → W × Option RenderError
  unfolding write_rows table_lines
  render_value plain (text_value t) w = written (write (line t) w)
  render_value plain other_value w = (w, some not_printable)
  render_value true (table_value t) w = write_rows t.rows w
  render_value false (table_value t) w = written (write (align (table_lines t)) w)

  -- `Render`
  unfoldable pub render : String → Value → W → W × Option RenderError
  unfolding render_value
  render mode value w =
      if str_eq mode "json"
      then written (encode value w)
      else render_value (str_eq mode "plain") value w

-- `NewRequestID`, with the bytes that are read or the error
unfoldable pub new_request_id : (List ℕ → String) → Result String (List ℕ) → Result String String
new_request_id hex raw = raw >>= λ b. ok (hex b)
