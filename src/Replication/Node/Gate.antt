-- ===== src/Replication/Node/Gate.antt =====
-- The leader's schema gate.
use gantry_core.Base.{
  ◌≡◌, ◌↔◌, refl, sym, ap, ◌∙◌, true, inl, inr, String, Option, none, some, List, [], ◌∷◌, arith,
  if◌then◌else◌, All, Option-cases,
}
use gantry_core.Base.Int.{ℤ, ◌≤ℤ◌}
use gantry_core.Base.Result.{Result, ok, err, ◌>>◌, guard, >>=-eq-ok, guard-eq-ok}
use gantry_core.Replication.Error.{Error, nil_dereference, node_lacks_schema}
use gantry_core.Replication.Operation.{Operation, Codec}
use gantry_core.Replication.Fsm.{ApplyResult}
use gantry_core.Replication.Node.{
  Capabilities, source, Machine, Node, Raft, leader, Server, Suffrage, voter, nonvoter, staging,
  is_voter, is_leader, supports_operation, check_voter, check_voters, check_source,
  require_voter_schema_support, propose, propose_local, handle_propose, check_known, new_node,
  choose_source,
}
use gantry_core.Replication.Node.Negotiation.{supported_by, IsNegotiated}

-- A reference machine that accepts a version.
abbrev pub Accepts : Machine → ℤ → Type 0
Accepts m v = (max : ℤ) × (supported_by m ≡ some max) × (v ≤ℤ max)

-- A voter's capabilities are known and list the schema.
abbrev pub VoterSupports : (String → Option Capabilities) → ℤ → Server → Type 0
VoterSupports f v s =
    s.suffrage ≡ voter → (c : Capabilities) × (f s.id ≡ some c) × (supports_operation c v ≡ true)

Supports : (String → Option Capabilities) → ℤ → String → Type 0
Supports f v id = (c : Capabilities) × (f id ≡ some c) × (supports_operation c v ≡ true)

module _ (f : String → Option Capabilities) (v : ℤ) where
  check_voter-ok : (id : String) → check_voter (source f) v id ≡ ok tt → Supports f v id
  unfolding check_voter Supports
  check_voter-ok id h = elim (Option-cases (f id)) [
    | inl n ↦ absurd (ground (arith, n))
    | inr (c, e) ↦ (c, e, ground (arith, e))
  ]

  check_voter-of : (id : String) → Supports f v id → check_voter (source f) v id ≡ ok tt
  unfolding check_voter Supports
  check_voter-of id (c, e, s) = rw (e, check_voter) (rw s)

  -- One server, by its suffrage.
  server-ok :
      (x : Suffrage) (id : String) (rest : Result Error (Unit {0}))
      → (if is_voter x then (check_voter (source f) v id >> rest) else rest) ≡ ok tt
      → (x ≡ voter → Supports f v id) × (rest ≡ ok tt)
  server-ok voter id rest h =
      let (u, p, q) = >>=-eq-ok (check_voter (source f) v id) (λ _. rest) h in
      (λ _. check_voter-ok id p, q)
  server-ok nonvoter id rest h = (λ e. absurd (cc), h)
  server-ok staging id rest h = (λ e. absurd (cc), h)

  server-of :
      (x : Suffrage) (id : String) (rest : Result Error (Unit {0}))
      → (x ≡ voter → Supports f v id)
      → rest ≡ ok tt
      → (if is_voter x then (check_voter (source f) v id >> rest) else rest) ≡ ok tt
  server-of voter id rest s h = rw (check_voter-of id (s refl)) h
  server-of nonvoter id rest s h = h
  server-of staging id rest s h = h

  check_voters-ok :
      (ss : List Server) → check_voters (source f) v ss ≡ ok tt → All (VoterSupports f v) ss
  unfolding check_voters Supports
  check_voters-ok [] h = tt
  check_voters-ok (s ∷ ss) h =
      let (p, q) = server-ok s.suffrage s.id (check_voters (source f) v ss) h in
      (p, check_voters-ok ss q)

  check_voters-of :
      (ss : List Server) → All (VoterSupports f v) ss → check_voters (source f) v ss ≡ ok tt
  unfolding check_voters Supports
  check_voters-of [] h = refl
  check_voters-of (s ∷ ss) (p, q) =
      server-of s.suffrage s.id (check_voters (source f) v ss) p (check_voters-of ss q)

module _ {Bytes : Type 0} (c : Codec Bytes) (r : Raft Bytes) (n : Node)
    (f : String → Option Capabilities) (ss : List Server) (src : n.cap_src ≡ source f)
    (cfg : r.configuration ≡ ok ss) where
  gate :
      (v : ℤ)
      → require_voter_schema_support r n v ≡ (
          guard (supports_operation n.caps v) (node_lacks_schema n.id v)
          >> check_voters (source f) v ss)
  unfolding require_voter_schema_support check_source
  gate v = rw (src, cfg)

  gate-ok :
      (v : ℤ)
      → require_voter_schema_support r n v ≡ ok tt
      → (supports_operation n.caps v ≡ true) × All (VoterSupports f v) ss
  gate-ok v h =
      let (u, p, q) =
        >>=-eq-ok (guard (supports_operation n.caps v) _) (λ _. check_voters (source f) v ss)
          (sym (gate v) ∙ h) in
      (guard-eq-ok _ _ p, check_voters-ok f v ss q)

  -- With a capability source and a readable configuration, the gate passes a schema exactly if the
  -- node supports it and every voter of the configuration is known to support it. Servers that do
  -- not vote play no part.
  pub require_voter_schema_support_iff :
      (v : ℤ)
      → (require_voter_schema_support r n v ≡ ok tt)
        ↔ ((supports_operation n.caps v ≡ true) × All (VoterSupports f v) ss)
  require_voter_schema_support_iff v =
      (gate-ok v, λ h. gate v ∙ rw h.0 (check_voters-of f v ss h.1))

  -- A leader's proposal that is answered with a result has passed the gate.
  propose-gate :
      (now : String) (op : Operation) {res : ApplyResult}
      → r.state ≡ leader
      → propose c r n now op ≡ ok res
      → All (VoterSupports f op.version) ss
  unfolding propose
  propose-gate now op lead h =
      let (u, p, q) = >>=-eq-ok (check_known c n op) _ h in
      let (w, x, y) =
        >>=-eq-ok (if is_leader r.state then require_voter_schema_support r n op.version else ok tt)
          _ q in
      (gate-ok op.version (required now op lead ∙ x)).1
    where
      required :
          (now : String) (op : Operation)
          → r.state ≡ leader
          → require_voter_schema_support r n op.version
            ≡ (if is_leader r.state then require_voter_schema_support r n op.version else ok tt)
      required now op lead = rw lead

  voters_accept :
      (nodes : String → Node) (v : ℤ)
      → ((id : String) (k : Capabilities)
          → f id ≡ some k
          → (k ≡ (nodes id).caps) × IsNegotiated (nodes id))
      → (ss : List Server) → All (VoterSupports f v) ss
      → All (λ s. s.suffrage ≡ voter → Accepts (nodes s.id).fsm v) ss
  voters_accept nodes v known [] h = tt
  voters_accept nodes v known (s ∷ ss) (p, q) =
      (λ e. accept (p e), voters_accept nodes v known ss q)
    where
      accept :
          (k : Capabilities) × (f s.id ≡ some k) × (supports_operation k v ≡ true)
          → Accepts (nodes s.id).fsm v
      accept (k, e, y) =
          let (same, (max, own, neg)) = known s.id k e in
          let within = sym (neg v) ∙ ap (λ x. supports_operation x v) (sym same) ∙ y in
          (max, own, ground (arith, within))

  -- On a leader with a capability source and a readable configuration, where the source knows only
  -- what the nodes advertise, and the nodes it knows have reference machines and advertise what these
  -- accept: what the node's own call of `propose` answers with a result has a schema version that the
  -- machine of every voter of the configuration accepts. Proposals that reach the leader through
  -- `handle_propose` are not meant: they pass no gate.
  pub propose-accepted :
      (nodes : String → Node) (now : String) (op : Operation) (res : ApplyResult)
      → ((id : String) (k : Capabilities)
          → f id ≡ some k
          → (k ≡ (nodes id).caps) × IsNegotiated (nodes id))
      → r.state ≡ leader
      → propose c r n now op ≡ ok res
      → All (λ s. s.suffrage ≡ voter → Accepts (nodes s.id).fsm op.version) ss
  propose-accepted nodes now op res known lead h =
      voters_accept nodes op.version known ss (propose-gate now op lead h)

module _ {Bytes : Type 0} (c : Codec Bytes) (r : Raft Bytes) where
  -- A leader that was created with neither a capability source nor a fabric dereferences a nil
  -- pointer at its first proposal of a supported schema that passes the identity check, if it reads
  -- a configuration whose first server votes.
  pub propose_standalone :
      (id : String) (machine : Option Machine) (schema format : ℤ) (features : List String)
      (now : String) (op : Operation) (s : Server) (ss : List Server)
      → let n = new_node id machine schema format features none none in
        r.state ≡ leader
        → r.configuration ≡ ok (s ∷ ss)
        → s.suffrage ≡ voter
        → check_known c n op ≡ ok tt
        → supports_operation n.caps op.version ≡ true
        → propose c r n now op ≡ err nil_dereference
  unfolding propose require_voter_schema_support check_source check_voters check_voter choose_source
      new_node
  propose_standalone id machine schema format features now op s ss lead cfg v k own =
      rw (k, lead, own, cfg, v)

  -- On a leader whose gate refuses the operation, `propose` returns the gate's error, while the
  -- routing entry point proposes the same operation to the consensus library.
  pub handle_propose-gate :
      (forward : Option (String → String → Operation → Result Error ApplyResult)) (n : Node)
      (now : String) (op : Operation) (e : Error)
      → r.state ≡ leader
      → check_known c n op ≡ ok tt
      → require_voter_schema_support r n op.version ≡ err e
      → (propose c r n now op ≡ err e)
        × (handle_propose c r forward n now op ≡ propose_local c r now op)
  unfolding propose handle_propose
  handle_propose-gate none n now op e lead k g = (rw (k, lead, g), rw lead)
  handle_propose-gate (some forward) n now op e lead k g = (rw (k, lead, g), rw lead)
