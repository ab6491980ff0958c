-- ===== src/As3/Rules/Ports.antt =====
-- The ports of an external service, filed by protocol (`dealExsvc` of pkg/as3/utils.go).
use container_egress_service.Prelude.{
  String, ◌≡◌, refl, ap, ◌∙◌, Bool, true, false, Bool-cases, inl, inr, List, [], ◌∷◌, ◌++◌, ◌&&◌,
  ◌||◌, not, any, any-append, mem, ◌==◌, arith,
}
use container_egress_service.Prelude.GoMap.{GoMap, lookup, insert}
use container_egress_service.Prelude.Text.{split, to_lower}
use container_egress_service.Kube.{ExternalServicePort, ExternalService}
use container_egress_service.As3.Types.{PortIrule}
use container_egress_service.As3.Rules.{ports_at, port_key, add_port, add_ports, or_any, deal_exsvc}

-- some entry of the map has the port
abbrev pub is_filed : String → GoMap PortIrule → Bool
is_filed p = any (λ e. mem p e.1.ports)

-- the text of the port lists it
abbrev pub lists_port : String → ExternalServicePort → Bool
lists_port p pt = not (pt.port == "") && mem p (split b',' pt.port)

ports_at_hit :
    (i k : String) (e : PortIrule) (m : GoMap PortIrule)
    → (i == k) ≡ true
    → ports_at k ((i, e) ∷ m) ≡ e.ports
unfolding ports_at lookup
ports_at_hit i k e m h = rw (h, ports_at) refl

ports_at_miss :
    (i k : String) (e : PortIrule) (m : GoMap PortIrule)
    → (i == k) ≡ false
    → ports_at k ((i, e) ∷ m) ≡ ports_at k m
unfolding ports_at lookup
ports_at_miss i k e m h = rw (h, ports_at) refl

is_filed-insert :
    (p k : String) (v : PortIrule) (new : List String) (m : GoMap PortIrule)
    → v.ports ≡ ports_at k m ++ new
    → is_filed p (insert k v m) ≡ (is_filed p m || mem p new)
unfolding insert lookup ports_at
is_filed-insert p k v new [] h = rw h (ground arith)
is_filed-insert p k v new ((i, e) ∷ m) h = elim (Bool-cases (i == k)) [
  | inl same ↦
      let mine : v.ports ≡ e.ports ++ new = h ∙ ap (λ xs. xs ++ new) (ports_at_hit i k e m same) in
      rw (same, mine, any-append (λ t. t == p) e.ports new) (ground arith)
  | inr other ↦
      let mine : v.ports ≡ ports_at k m ++ new =
        h ∙ ap (λ xs. xs ++ new) (ports_at_miss i k e m other) in
      rw (other, is_filed-insert p k v new m mine) (ground arith)
]

is_filed-add_port :
    (p : String) (m : GoMap PortIrule) (pt : ExternalServicePort)
    → is_filed p (add_port m pt) ≡ (is_filed p m || lists_port p pt)
unfolding add_port
is_filed-add_port p m pt = elim (Bool-cases (pt.port == "")) [
  | inl blank ↦ rw blank (ground arith)
  | inr e ↦ rw e (
      is_filed-insert p (port_key m pt)
        (record {
          protocol = to_lower pt.protocol;
          irule = pt.bandwidth;
          ports = ports_at (port_key m pt) m ++ split b',' pt.port;
        })
        (split b',' pt.port) m refl)
]

is_filed-add_ports :
    (p : String) (pts : List ExternalServicePort) (m : GoMap PortIrule)
    → is_filed p (add_ports m pts) ≡ (is_filed p m || any (lists_port p) pts)
unfolding add_ports
is_filed-add_ports p [] m = ground arith
is_filed-add_ports p (pt ∷ pts) m =
    ground (arith, is_filed-add_ports p pts (add_port m pt), is_filed-add_port p m pt)

is_filed-or_any : (p : String) (m : GoMap PortIrule) → is_filed p (or_any m) ≡ is_filed p m
is_filed-or_any p [] = refl
is_filed-or_any p (e ∷ m) = refl

-- A port is filed, under some protocol, exactly if a port of the external service lists it: no
-- port is lost when several share a protocol, and none is added.
pub is_filed-deal_exsvc :
    (p : String) (exsvc : ExternalService)
    → is_filed p (deal_exsvc exsvc).dest_ports ≡ any (lists_port p) exsvc.ports
unfolding deal_exsvc
is_filed-deal_exsvc p exsvc =
    is_filed-or_any p (add_ports [] exsvc.ports) ∙ is_filed-add_ports p exsvc.ports []
