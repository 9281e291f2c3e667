-- ===== src/Bpv7/Endpoint/Text/Node.antt =====
-- `EndpointID.SameNode`.
use dtn7_go.Base.{
  ℕ, ◌≡◌, refl, ◌↔◌, List, [], ◌∷◌, true, false, none, some, arith, bytes_equal, bytes_equal_refl,
  bytes_equal→eq, sym, ap, ◌∙◌,
}
use dtn7_go.Base.Decimal.{decimal, value_from}
use dtn7_go.Base.Decimal.Laws.{value_from-decimal}
use dtn7_go.Bpv7.Endpoint.{DtnEndpoint, IpnEndpoint, EndpointType, EndpointId, dtn, ipn, dtn_none}
use dtn7_go.Bpv7.Endpoint.Text.{scheme_name, authority_of, same_parts, same_node}

-- Go's `==` on strings.
pub bytes_equal_iff : (xs ys : List ℕ) → (bytes_equal xs ys ≡ true) ↔ (xs ≡ ys)
bytes_equal_iff xs ys = (bytes_equal→eq xs ys, λ e. rw (← e) (bytes_equal_refl xs))

pub same_parts_iff :
    (t u : EndpointType)
    → (same_parts t u ≡ true)
      ↔ ((scheme_name t ≡ scheme_name u) × (authority_of t ≡ authority_of u))
same_parts_iff t u = ground (
  arith,
  bytes_equal_iff (scheme_name t) (scheme_name u),
  bytes_equal_iff (authority_of t) (authority_of u),
)

-- An endpoint with a type.
abbrev pub of_type : EndpointType → EndpointId
of_type t = record { endpoint_type = some t }

-- On endpoints that have a type, `SameNode` is an equivalence relation.
pub same_node-IsEquivalence :
    ((t : EndpointType) → same_node (of_type t) (of_type t) ≡ true)
    × ((t u : EndpointType) → same_node (of_type t) (of_type u) ≡ same_node (of_type u) (of_type t))
    × ((t u v : EndpointType)
        → same_node (of_type t) (of_type u) ≡ true
        → same_node (of_type u) (of_type v) ≡ true
        → same_node (of_type t) (of_type v) ≡ true)
unfolding same_node
same_node-IsEquivalence = (
  λ t. (same_parts_iff t t).1 (refl, refl),
  λ t u. ground (arith, same_parts_iff t u, same_parts_iff u t),
  λ t u v. ground (arith, same_parts_iff t u, same_parts_iff u v, same_parts_iff t v),
)

-- Two ipn endpoints are of the same node exactly if their node numbers are equal, whatever the
-- services; an ipn and a dtn endpoint never are.
pub same_node-ipn :
    (a b : IpnEndpoint) (e : DtnEndpoint)
    → ((same_node (of_type (ipn a)) (of_type (ipn b)) ≡ true) ↔ (a.node ≡ b.node))
      × (same_node (of_type (ipn a)) (of_type (dtn e)) ≡ false)
unfolding same_node bytes_equal
same_node-ipn a b e = (
  (
    λ h.
        sym (value_from-decimal a.node)
        ∙ ap (value_from 0) (bytes_equal→eq (decimal a.node) (decimal b.node) h)
        ∙ value_from-decimal b.node,
    λ h. rw h (bytes_equal_refl (decimal b.node)),
  ),
  refl,
)

-- `SameNode` takes an endpoint without a type for the null endpoint, and the null endpoint for a
-- node that is called "none", yet not the endpoint without a type for that node: over all
-- endpoints it is not transitive.
pub same_node-not_transitive :
    (d : List ℕ)
    → let named : EndpointId = of_type (
        dtn (record {
          node_name = b'n' ∷ b'o' ∷ b'n' ∷ b'e' ∷ [];
          demux = d;
          is_dtn_none = false;
        })) in
      (same_node (record { endpoint_type = none }) dtn_none ≡ true)
      × (same_node dtn_none named ≡ true)
      × (same_node (record { endpoint_type = none }) named ≡ false)
unfolding same_node bytes_equal
same_node-not_transitive d = (refl, refl, refl)
