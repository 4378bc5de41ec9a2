-- ===== src/Command/Formed.antt =====
-- What a command line that parses has.
use gantry_core.Base.{
  ◌<◌, ◌≤◌, ◌≡◌, refl, inl, inr, Bool-cases, Bool, true, false, ◌&&◌, ◌||◌, not, if◌then◌else◌, ltb,
  String, Option, none, some, List, [], ◌∷◌, ◌++◌, str_eq, All, arith,
}
use Prim.Native.String.{len}
use text.Mathlib.Text.{starts_with}
use gantry_core.Base.Int.{ℤ, pos, negsuc}
use gantry_core.Base.Result.{
  Result, ok, err, Holds, holds, failed, Holds->>=, Holds-guard, Holds-if, Holds-self, Holds-ok,
}
use gantry_core.Base.Text.{cut_at, trim_slashes, drop_chars}
use gantry_core.Command.{
  Invocation, CliError, Parsing, Arg, stops, goes, needs_output, needs_value, takes_value,
  set_output, positive_duration, flag_value, is_query, apply_value, read_value, read_arg,
  with_value, parse_args, of_result, word, finish_parse, parse,
}

-- `--output` in one of its three modes, at most one file of credentials, a positive timeout, a bounded
-- request id, a web address, and queries with a key.
pub record Formed (i : Invocation) : Type 0 where
  pub mode_known :
      (str_eq i.output "table" || str_eq i.output "json" || str_eq i.output "plain") ≡ true
  pub one_credential : (str_eq i.token_file "" || str_eq i.session_file "") ≡ true
  pub time_left : 0 < i.timeout
  pub id_bounded : len i.request_id ≤ 128
  pub url_web :
      (str_eq i.url "" || starts_with i.url "http://" || starts_with i.url "https://") ≡ true
  pub queries_keyed : All (λ q. is_query (cut_at 0x3d q) ≡ true) i.query

formed :
    {i : Invocation}
    → (str_eq i.output "table" || str_eq i.output "json" || str_eq i.output "plain") ≡ true
    → (str_eq i.token_file "" || str_eq i.session_file "") ≡ true
    → 0 < i.timeout
    → len i.request_id ≤ 128
    → (str_eq i.url "" || starts_with i.url "http://" || starts_with i.url "https://") ≡ true
    → All (λ q. is_query (cut_at 0x3d q) ≡ true) i.query
    → Formed i
formed mode credential time id url queries = record {
  mode_known = mode;
  one_credential = credential;
  time_left = time;
  id_bounded = id;
  url_web = url;
  queries_keyed = queries;
}

All-last {ℓ κ} :
    {A : Type ℓ} (P : A → Type κ) (xs : List A) (x : A) → All P xs → P x → All P (xs ++ (x ∷ []))
All-last P [] x all h = (h, tt)
All-last P (y ∷ ys) x (p, all) h = (p, All-last P ys x all h)

abbrev Kept : Parsing → Type 0
Kept p = Formed p.inv

set_output-Formed : (value : String) (p : Parsing) → Kept p → Holds Kept (set_output value p)
unfolding set_output
set_output-Formed value p f =
    Holds-guard (str_eq value "table" || str_eq value "json" || str_eq value "plain") _ _ (λ known.
      Holds-guard (not (str_eq p.inv.output "json" && not (str_eq value "json"))) _ _ (λ _.
        holds (formed (known) f.one_credential f.time_left f.id_bounded f.url_web f.queries_keyed)))

positive_duration-pos : (o : Option ℤ) → Holds (λ d. 0 < d) (positive_duration o)
unfolding positive_duration
positive_duration-pos none = failed
positive_duration-pos (some (negsuc n)) = failed
positive_duration-pos (some (pos n)) = Holds-guard (ltb 0 n) _ _ (λ h. holds (ground (arith, h)))

abbrev Mode : String → Type 0
Mode o = (str_eq o "table" || str_eq o "json" || str_eq o "plain") ≡ true

quieted :
    (quiet : Bool) (o : String)
    → Mode o
    → Mode (if quiet && str_eq o "table" then "plain" else o)
      × ((quiet && str_eq (if quiet && str_eq o "table" then "plain" else o) "table") ≡ false)
quieted quiet o h = elim (Bool-cases (quiet && str_eq o "table")) [
  | inl e ↦ rw e (refl, ground arith)
  | inr e ↦ rw e (h, e)
]

finish_parse-Formed :
    (i : Invocation) (positionals : List String)
    → Formed i
    → Holds
        (λ j.
          Formed j
          × (word j.resource ≡ true)
          × (word j.verb ≡ true)
          × ((j.quiet && str_eq j.output "table") ≡ false))
        (finish_parse i positionals)
unfolding finish_parse
finish_parse-Formed i [] f = failed
finish_parse-Formed i (resource ∷ []) f = failed
finish_parse-Formed i (resource ∷ verb ∷ arguments) f =
    Holds-guard (word resource && word verb) _ _ (λ words.
      let (mode, plain) = quieted i.quiet i.output f.mode_known in
      holds (
        formed mode f.one_credential f.time_left f.id_bounded f.url_web f.queries_keyed,
        ground (arith, words),
        ground (arith, words),
        plain,
      ))

module _ (parse_duration : String → Option ℤ) where
  apply_value-Formed :
      (name value : String) (p : Parsing)
      → Kept p
      → Holds Kept (apply_value parse_duration name value p)
  unfolding apply_value
  apply_value-Formed name value p f =
      Holds-if (str_eq name "--input") _ _
        (λ _.
          holds (
            formed f.mode_known f.one_credential f.time_left f.id_bounded f.url_web
              f.queries_keyed))
        (λ _.
          Holds-if (str_eq name "--timeout") _ _
            (λ _. Holds->>= _ (positive_duration-pos (parse_duration value)) (λ d h.
              holds
                (formed f.mode_known f.one_credential (h) f.id_bounded f.url_web f.queries_keyed)))
            (λ _.
              Holds-if (str_eq name "--request-id") _ _
                (λ _. Holds-guard (not (ltb 128 (len value) || str_eq value "")) _ _ (λ h. holds (
                  formed f.mode_known f.one_credential f.time_left (ground (arith, h)) f.url_web
                    f.queries_keyed)))
                (λ _.
                  Holds-if (str_eq name "--url") _ _
                    (λ _.
                      Holds-guard
                        (starts_with (trim_slashes value) "http://"
                          || starts_with (trim_slashes value) "https://")
                        _ _
                        (λ h. holds (
                          formed f.mode_known f.one_credential f.time_left f.id_bounded
                            (ground (arith, h)) f.queries_keyed)))
                    (λ _.
                      Holds-if (str_eq name "--token-file") _ _
                        (λ _. Holds-guard (not (str_eq value "-")) _ _ (λ _.
                          Holds-guard (str_eq p.inv.session_file "") _ _ (λ h. holds (
                            formed f.mode_known (ground (arith, h)) f.time_left f.id_bounded
                              f.url_web f.queries_keyed))))
                        (λ _.
                          Holds-if (str_eq name "--query") _ _
                            (λ _. Holds-guard (is_query (cut_at 0x3d value)) _ _ (λ h. holds (
                              formed f.mode_known f.one_credential f.time_left f.id_bounded
                                f.url_web (All-last _ p.inv.query value f.queries_keyed h))))
                            (λ _.
                              Holds-if (str_eq name "--session-file") _ _
                                (λ _. Holds-guard (not (str_eq value "-")) _ _ (λ _.
                                  Holds-guard (str_eq p.inv.token_file "") _ _ (λ h. holds (
                                    formed f.mode_known (ground (arith, h)) f.time_left f.id_bounded
                                      f.url_web f.queries_keyed))))
                                (λ _. failed)))))))

  -- What an argument leaves, if it is done with.
  After : Arg → Type 0
  After (goes p) = Kept p
  After _ = Unit

  of_result-After :
      (r : Result CliError Parsing) → Holds Kept r → After (of_result parse_duration r)
  unfolding After
  of_result-After (ok p) h = Holds-ok p h refl
  of_result-After (err e) h = tt

  After-if : (b : Bool) (x y : Arg) → After x → After y → After (if b then x else y)
  After-if true x y h k = h
  After-if false x y h k = k

  read_value-After :
      (t : String × String × Bool) (p : Parsing) → Kept p → After (read_value parse_duration t p)
  unfolding After read_value
  read_value-After (name, inline, true) p f =
      of_result-After (apply_value parse_duration name inline p)
        (apply_value-Formed name inline p f)
  read_value-After (name, inline, false) p f = tt

  read_arg-After : (arg : String) (p : Parsing) → Kept p → After (read_arg parse_duration arg p)
  unfolding After read_arg
  read_arg-After arg p f = After-if (str_eq arg "--help" || str_eq arg "-h") _ _ tt (
      After-if (str_eq arg "--json") _ _
        (of_result-After _ (
          Holds-guard (str_eq p.inv.output "table" || str_eq p.inv.output "json") _ _ (λ _.
            holds
              (formed refl f.one_credential f.time_left f.id_bounded f.url_web f.queries_keyed))))
        (After-if (str_eq arg "--quiet" || str_eq arg "-q") _ _
          (formed f.mode_known f.one_credential f.time_left f.id_bounded f.url_web f.queries_keyed)
          (After-if (str_eq arg "--yes" || str_eq arg "-y") _ _
            (formed f.mode_known f.one_credential f.time_left f.id_bounded f.url_web
              f.queries_keyed)
            (After-if (starts_with arg "--output=") _ _
              (of_result-After _ (set_output-Formed (drop_chars 9 arg) p f))
              (After-if (str_eq arg "--output") _ _ tt (
                After-if (takes_value arg) _ _ (read_value-After (cut_at 0x3d arg) p f)
                  (After-if (starts_with arg "-") _ _ tt f)))))))

  with_value-Formed :
      (a : Arg) (p : Parsing) (next : Option String) (go skip : Parsing → Result CliError Parsing)
      → Kept p
      → After a
      → ((q : Parsing) → Kept q → Holds Kept (go q))
      → ((q : Parsing) → Kept q → Holds Kept (skip q))
      → Holds Kept (with_value parse_duration a p next go skip)
  unfolding After with_value
  with_value-Formed (stops e) p next go skip f h g s = failed
  with_value-Formed (goes q) p next go skip f h g s = g q h
  with_value-Formed needs_output p none go skip f h g s = failed
  with_value-Formed needs_output p (some v) go skip f h g s =
      Holds->>= _ (Holds-self (flag_value v))
        (λ value _. Holds->>= _ (set_output-Formed value p f) s)
  with_value-Formed (needs_value name) p none go skip f h g s = failed
  with_value-Formed (needs_value name) p (some v) go skip f h g s =
      Holds->>= _ (Holds-self (flag_value v))
        (λ value _. Holds->>= _ (apply_value-Formed name value p f) s)

  parse_args-Formed :
      (args : List String) (p : Parsing) → Kept p → Holds Kept (parse_args parse_duration args p)
  unfolding parse_args
  parse_args-Formed [] p f = holds f
  parse_args-Formed (a ∷ []) p f =
      with_value-Formed (read_arg parse_duration a p) p none ok ok f (read_arg-After a p f)
        (λ q h. holds h) (λ q h. holds h)
  parse_args-Formed (a ∷ v ∷ rest) p f =
      with_value-Formed (read_arg parse_duration a p) p (some v) _ _ f (read_arg-After a p f)
        (λ q h. parse_args-Formed (v ∷ rest) q h) (λ q h. parse_args-Formed rest q h)

  -- A command line that parses names a resource and a verb in lower case words, a known output mode,
  -- which is not the table when it is quiet, at most one file of credentials, a positive timeout, a
  -- request id of at most 128 bytes, a web address or none, and queries that have a key.
  pub parse-Formed :
      (args : List String)
      → Holds
          (λ i.
            Formed i
            × (word i.resource ≡ true)
            × (word i.verb ≡ true)
            × ((i.quiet && str_eq i.output "table") ≡ false))
          (parse parse_duration args)
  unfolding parse
  parse-Formed args =
      Holds->>= _ (parse_args-Formed args _ (formed refl refl (omega arith) (omega arith) refl tt))
        (λ p f. finish_parse-Formed p.inv p.positionals f)
