-- ===== src/Cluster/Tests.antt =====
-- Pairings, signed requests and fan-outs at concrete inputs.
use Prim.Native.Char.{nul}
use gantry_core.Base.{
  ℕ, zero, suc, ◌+◌, ◌/◌, ◌%◌, ◌==◌, if◌then◌else◌, ap, ◌∙◌, ◌≡◌, ◌≤◌, ◌*◌, refl, false, String,
  none, some, List, [], ◌∷◌, length, All, Assoc, str_eq, arith,
}
use gantry_core.Base.Int.{ℤ, pos, negsuc}
use gantry_core.Base.Result.{Result, ok, err, ◌>>=◌, Holds}
use gantry_core.Base.Text.{trim_space}
use gantry_core.Base.Sort.{sort_by, str_leb}
use gantry_core.Cluster.Pairing.{Invitation, validate_invitation, invitation_unavailable}
use gantry_core.Cluster.Pairing.Lifecycle.{follows, follows-ends}
use gantry_core.Cluster.Identity.{has_required}
use gantry_core.Cluster.Security.{
  Formats, IsFormats, VerifyRequestInput, read_envelope, verify_incoming, outside,
}
use gantry_core.Cluster.Security.Accepted.{Authentic, Credential, verify_incoming-Authentic}
use gantry_core.Cluster.Security.Written.{
  Sending, written, carried, received, verify_incoming-written,
}
use gantry_core.Cluster.Routing.{
  node_result, Fan, fan_started, acquire, finish, fan_returned, effective_limit, parse_target,
  target_node,
}
use gantry_core.Cluster.Routing.FanOut.{
  FanRun, begun, continued, results_of, fan_returned-results_of, given, Goes, FanRun-ends,
}
use gantry_core.Replication.Peers.Tests.{plain, plain-IsCrypto}

abbrev invited : Invitation
invited = record { id = "inv_1"; token = ""; state = "pending"; expires_at = 700; created_at = 100 }

targets :
    (parse_target " node:n-17 " ≡ ok (target_node "n-17"))
    × (parse_target "n-17" ≡ ok (target_node "n-17"))
unfolding parse_target trim_space
targets = (refl, refl)

abbrev steps : List String
steps = "approved" ∷ "used" ∷ []

follows-ends_example :
    (length steps ≤ 2)
    × All
        (λ s. validate_invitation (record invited { state = s }) 300 ≡ err invitation_unavailable)
        steps
unfolding follows
follows-ends_example = follows-ends invited steps 300 refl

-- Numbers and times as texts of their length.
unary : ℕ → String
unary zero = ""
unary (suc n) = String.◌∷◌ nul (unary n)

value : String → ℕ
value String.[] = 0
value (String.◌∷◌ c s) = suc (value s)

value-unary : (n : ℕ) → value (unary n) ≡ n
unfolding value unary
value-unary zero = refl
value-unary (suc n) = ap suc (value-unary n)

signed_of : ℕ → ℤ
signed_of v = if v % 2 == 0 then pos (v / 2) else negsuc (v / 2)

index_of : ℤ → ℕ
index_of (pos n) = 2 * n
index_of (negsuc n) = 2 * n + 1

signed_of-index_of : (n : ℤ) → signed_of (index_of n) ≡ n
unfolding signed_of index_of
signed_of-index_of (pos n) = ground arith
signed_of-index_of (negsuc n) = ground arith

abbrev texts : Formats
texts = record {
  itoa = λ n. unary (index_of n);
  atoi = λ s. some (signed_of (value s));
  format_time = unary;
  parse_time = λ s. some (value s);
}

texts-IsFormats : IsFormats texts
texts-IsFormats = record {
  atoi-itoa = λ n. ap some (ap signed_of (value-unary (index_of n)) ∙ signed_of-index_of n);
  parse_time-format_time = λ t. ap some (value-unary t);
}

abbrev sending : Sending plain
sending = record {
  node_id = "n1";
  secret = "s";
  method = "POST";
  request_uri = "/api/cluster/v1/rpc/summary";
  capability = "summary";
  body = "{}";
  sent = 5;
  nonce = "x";
  request_id = "r1";
}

abbrev no_headers : Assoc String
no_headers = []

abbrev summary : List String
summary = "summary" ∷ []

verify_incoming-written_example :
    (read_envelope texts (written plain texts sending no_headers) 7 >>= λ e.
    verify_incoming plain texts (received plain texts sending summary none none 7 e))
    ≡ ok (record { promote_pending = false })
unfolding outside has_required
verify_incoming-written_example =
    verify_incoming-written plain texts sending no_headers 7 none none summary plain-IsCrypto
      texts-IsFormats (λ e. cc) (λ e. cc) (λ e. cc) refl refl (omega arith)

abbrev incoming : VerifyRequestInput plain
incoming = received plain texts sending summary none none 7 (carried plain texts sending)

verify_incoming-Authentic_example :
    Holds
      (λ out. Authentic plain texts incoming × Credential plain incoming out.promote_pending)
      (verify_incoming plain texts incoming)
verify_incoming-Authentic_example = verify_incoming-Authentic plain texts incoming

-- Two nodes, of which one fails and ends first.
call : String → Result String ℕ
call id = if str_eq id "b" then err "down" else ok 7

abbrev nodes : List String
nodes = "b" ∷ "a" ∷ []

abbrev last : Fan ℕ
last = record {
  waiting = [];
  running = [];
  results = node_result "b" (call "b") ∷ node_result "a" (call "a") ∷ [];
}

fan_run : FanRun call (pos 1) (fan_started nodes) 4 last
unfolding fan_started sort_by effective_limit
fan_run =
    continued
      (continued
        (continued (continued begun (acquire ("a" ∷ []) [] "b" refl (omega arith)))
          (finish [] [] "b" refl))
        (acquire [] [] "a" refl (omega arith)))
      (finish [] [] "a" refl)

fan_returned-results_of_example : fan_returned last ≡ results_of call (sort_by str_leb nodes)
fan_returned-results_of_example = fan_returned-results_of call nodes last fan_run refl refl

FanRun-ends_example :
    (length last.running ≤ given (pos 1)) × (4 ≤ 2 * length nodes) × Goes call (pos 1) last
FanRun-ends_example = FanRun-ends call nodes last fan_run
