-- ===== src/Propagation/Distributed.antt =====
-- Previews and bundles on several nodes at once (propagation/distributed.go). The goroutines write to
-- places of their own, so the results do not depend on their order; `order` puts the nodes in the order
-- in which the calls of `apply` change the destinations. Where the context has ended a call returns
-- its error.
use gantry_core.Base.{String, List, [], ◌∷◌}
use gantry_core.Base.Sort.{sort_by, str_leb}
use gantry_core.Propagation.Plan.{Envelope}
use gantry_core.Propagation.Preview.{Preview}
use gantry_core.Propagation.Apply.{ApplyBundleResult}

pub record NodePreview : Type 0 where
  pub node : String
  pub preview : Preview
  pub error : String

pub record NodeApply : Type 0 where
  pub node : String
  pub result : ApplyBundleResult
  pub error : String

module _ {S : Type 0} where
  unfoldable preview_each :
      (String → List Envelope → S → Preview × String)
      → List Envelope
      → S
      → List String
      → List NodePreview
  preview_each fn source s [] = []
  preview_each fn source s (n ∷ ns) =
      let (preview, error) = fn n source s in
      record { node = n; preview = preview; error = error } ∷ preview_each fn source s ns

  -- `PreviewNodes`
  unfoldable pub preview_nodes :
      (String → List Envelope → S → Preview × String)
      → List Envelope
      → S
      → List String
      → List NodePreview
  unfolding preview_each sort_by
  preview_nodes fn source s nodes =
      sort_by (λ x y. str_leb x.node y.node) (preview_each fn source s nodes)

  unfoldable apply_each :
      (String → List Envelope → S → S × ApplyBundleResult × String)
      → List Envelope
      → S
      → List String
      → S × List NodeApply
  apply_each fn source s [] = (s, [])
  apply_each fn source s (n ∷ ns) =
      let (s', result, error) = fn n source s in
      let (last, rest) = apply_each fn source s' ns in
      (last, record { node = n; result = result; error = error } ∷ rest)

  -- `ApplyNodes`
  unfoldable pub apply_nodes :
      (List String → List String)
      → (String → List Envelope → S → S × ApplyBundleResult × String)
      → List Envelope
      → S
      → List String
      → S × List NodeApply
  unfolding apply_each sort_by
  apply_nodes order fn source s nodes =
      let (s', results) = apply_each fn source s (order nodes) in
      (s', sort_by (λ x y. str_leb x.node y.node) results)
