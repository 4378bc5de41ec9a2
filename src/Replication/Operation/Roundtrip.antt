-- ===== src/Replication/Operation/Roundtrip.antt =====
-- An operation that is encoded for the log and decoded from it.
use gantry_core.Base.{◌≡◌, refl, String, some, arith}
use mathlib.Core.Path.{subst₂}
use gantry_core.Base.Result.{Result, ok, >>=-eq-ok}
use gantry_core.Replication.Error.{Error}
use gantry_core.Replication.Operation.{
  Operation, Codec, IsLawful, IsCanonical, validate, encode, decode_operation, digest,
  normalize_json, stamp,
}

module _ {Bytes : Type 0} (c : Codec Bytes) (law : IsLawful c) where
  -- A canonical payload in place of the operation's own, and a stamped time, keep it valid.
  validate-normal :
      (now q : String) (o : Operation)
      → c.normalize o.payload ≡ some q
      → validate o ≡ ok tt
      → validate (record o { payload = q; committed = stamp now o.committed }) ≡ ok tt
  unfolding validate
  validate-normal now q o e h = ground (arith, law.normalize_visible o.payload q e)

  normalize_json-some :
      (p : String) {q : String} → normalize_json c p ≡ ok q → c.normalize p ≡ some q
  unfolding normalize_json
  normalize_json-some p h = ground arith

  digest_normal :
      (now q : String) (o : Operation)
      → c.normalize o.payload ≡ some q
      → digest c (record o { payload = q; committed = stamp now o.committed }) ≡ digest c o
  unfolding digest normalize_json
  digest_normal now q o e = rw (e, law.normalize_canonical o.payload q e, normalize_json)

  abbrev normal : String → String → Operation → Operation
  normal now q o = record o { payload = q; committed = stamp now o.committed }

  abbrev Reread : String → Operation → Operation → Bytes → Type 0
  Reread now o o' b =
      (decode_operation c b ≡ ok o')
      × (digest c o' ≡ digest c o)
      × IsCanonical c o'.payload
      × (o' ≡ record o { payload = o'.payload; committed = stamp now o.committed })

  Reread-normal :
      (now q : String) (o : Operation)
      → c.normalize o.payload ≡ some q
      → validate o ≡ ok tt
      → Reread now o (normal now q o) (c.marshal (normal now q o))
  unfolding decode_operation
  Reread-normal now q o e v =
      let canon = law.normalize_canonical o.payload q e in
      (
        rw (law.unmarshal_marshal (normal now q o) canon, decode_operation)
            (rw (validate-normal now q o e v)),
        digest_normal now q o e,
        canon,
        refl,
      )

  Reread-equal :
      (now q : String) (o o' : Operation) (b : Bytes)
      → Reread now o (normal now q o) (c.marshal (normal now q o))
      → ◌≡◌ {A = Result Error (Operation × Bytes)}
          (ok (normal now q o, c.marshal (normal now q o)))
          (ok (o', b))
      → Reread now o o' b
  Reread-equal now q o o' b r h =
      let left : normal now q o ≡ o' = cc in
      let bytes : c.marshal (normal now q o) ≡ b = cc in
      subst₂ (λ x y. Reread now o x y) left bytes r

  -- What `encode` writes for an operation is decoded to the operation that it leaves: the same but
  -- for a canonical payload and a commit time, which is the clock's where none was set. The payload
  -- digest, by which a retry is recognised, is that of the original.
  pub decode-encode :
      (now : String) (o o' : Operation) (b : Bytes)
      → encode c now o ≡ ok (o', b)
      → (decode_operation c b ≡ ok o')
        × (digest c o' ≡ digest c o)
        × IsCanonical c o'.payload
        × (o' ≡ record o { payload = o'.payload; committed = stamp now o.committed })
  unfolding encode
  decode-encode now o o' b h =
      let (u, v, h₁) = >>=-eq-ok (validate o) _ h in
      let (q, n, h₂) = >>=-eq-ok (normalize_json c o.payload) _ h₁ in
      Reread-equal now q o o' b (Reread-normal now q o (normalize_json-some o.payload n) v) h₂
