-- ===== src/Propagation/Plan/Signed.antt =====
-- Plans that are signed for the node that approves them (propagation/plan.go: Plan, NewPlan, Sign,
-- Verify). json.Marshal of a plan, which fails for a time out of its range, and hexadecimal digits
-- are parameters beside the cryptography.
use gantry_core.Base.{
  ℕ, ◌≡◌, ◌↔◌, refl, sym, ap, ◌∙◌, true, false, not, String, Option, none, some, List, str_eq, ltb,
}
use gantry_core.Base.Crypto.{Crypto}
use gantry_core.Base.Result.{Result, ok, err, ◌>>=◌, ◌>>◌, guard, >>=-eq-ok, guard-eq-ok}
use gantry_core.Propagation.Plan.{PlanItem}

pub record Plan : Type 0 where
  pub id : String
  pub source_node : String
  pub target : String
  pub created_at : ℕ
  pub items : List PlanItem
  pub signature : String

pub data SignError : Type 0 where
  key_short plan_unwritten signature_missing signature_malformed signature_invalid : SignError

-- `NewPlan`
unfoldable pub new_plan : String → String → String → List PlanItem → ℕ → Plan
new_plan id source target items now = record {
  id = id;
  source_node = source;
  target = target;
  created_at = now;
  items = items;
  signature = "";
}

-- The plan as it is written for its signature.
abbrev pub unsigned : Plan → Plan
unsigned p = record p { signature = "" }

module _ (c : Crypto) (marshal : Plan → Option String) (hex_decode : String → Option c.Digest) where
  -- `canonical`
  unfoldable pub plan_canonical : Plan → Result SignError String
  plan_canonical p = elim (marshal (unsigned p)) [ none ↦ err plan_unwritten | some b ↦ ok b ]

  -- `Sign`: the plan that it leaves.
  unfoldable pub sign_plan : String → Plan → Result SignError Plan
  unfolding plan_canonical
  sign_plan key p = do
    guard (not (ltb (c.size (c.bytes key)) 16)) key_short
    b ← plan_canonical p
    ok (record p { signature = c.hex (c.hmac_sha256 key b) })

  unfoldable pub check_digest : c.Digest → Option c.Digest → Result SignError (Unit {0})
  check_digest mac none = err signature_malformed
  check_digest mac (some got) = guard (c.equal got mac) signature_invalid

  -- `Verify`
  unfoldable pub verify_plan : String → Plan → Result SignError (Unit {0})
  unfolding plan_canonical check_digest
  verify_plan key p = do
    guard (not (str_eq p.signature "")) signature_missing
    b ← plan_canonical p
    check_digest (c.hmac_sha256 key b) (hex_decode p.signature)

  -- What encoding/hex and crypto/hmac document of these.
  pub record IsHex : Type 0 where
    pub decode-hex : (d : c.Digest) → hex_decode (c.hex d) ≡ some d
    pub hex-ne : (d : c.Digest) → str_eq (c.hex d) "" ≡ false
    pub equal-iff : (d e : c.Digest) → (c.equal d e ≡ true) ↔ (d ≡ e)

  -- One plan was signed with a key; another that carries its signature.
  module _ (lawful : IsHex) (key : String) (p signed : Plan)
      (made : sign_plan key p ≡ ok signed) where
    signed-parts :
        (b : String) × (plan_canonical p ≡ ok b)
        × (signed ≡ record p { signature = c.hex (c.hmac_sha256 key b) })
    unfolding sign_plan
    signed-parts =
        let (u, g, h) = >>=-eq-ok (guard (not (ltb (c.size (c.bytes key)) 16)) key_short) _ made in
        let (b, e, k) = >>=-eq-ok (plan_canonical p) _ h in (b, e, cc)

    verified :
        (d : c.Digest) (q : Plan) (m : String)
        → plan_canonical q ≡ ok m
        → verify_plan key (record q { signature = c.hex d })
          ≡ guard (c.equal d (c.hmac_sha256 key m)) signature_invalid
    unfolding verify_plan plan_canonical check_digest
    verified d q m e = rw (lawful.hex-ne d, e, lawful.decode-hex d) refl

    -- A plan that carries the signature of the signed one is verified with the key exactly if it is
    -- written as a text with the same HMAC; so the signed plan itself is.
    pub verify_plan-sign_plan :
        (q : Plan) (m b : String)
        → plan_canonical q ≡ ok m
        → plan_canonical p ≡ ok b
        → (verify_plan key (record q { signature = signed.signature }) ≡ ok tt)
          ↔ (c.hmac_sha256 key m ≡ c.hmac_sha256 key b)
    verify_plan-sign_plan q m b e k =
        let (b', e', s) = signed-parts in
        let same : b' ≡ b = cc in
        let mark : signed.signature ≡ c.hex (c.hmac_sha256 key b) =
          ap (λ (x : Plan). x.signature) s ∙ ap (λ x. c.hex (c.hmac_sha256 key x)) same in
        let (there, back) = lawful.equal-iff (c.hmac_sha256 key b) (c.hmac_sha256 key m) in
        rw (mark, verified (c.hmac_sha256 key b) q m e)
          (λ h. sym (there (guard-eq-ok _ _ h)), λ h. rw (back (sym h)) refl)
