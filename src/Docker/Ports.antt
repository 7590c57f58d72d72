-- ===== src/Docker/Ports.antt =====
-- `toPorts` of internal/adapters/docker/mapping.go.
use mathlib.Core.List.{
  Mem-prop, eq-or-mem_of_mem-cons, Nodup, Nodup-cons, Nodup-nil, mem-cons, not-mem-nil,
  mem-cons_of_mem, perm_ext_iff_of_Nodup,
}
use mathlib.Core.List.Perm
use mathlib.Core.Logic.Or
use compose_monitor.Base.{
  ℕ, ◌≢◌, ◌≡◌, refl, sym, ◌∙◌, Bool, true, false, List, [], ◌∷◌, map, Mem, Perm, ◌↔◌, arith,
  compare, Text, Ordering, if◌then◌else◌, ◌==◌, ◌&&◌, ◌||◌, not, Bool-cases, inl, inr,
}
use compose_monitor.Base.Order.{
  IsOrder, ℕ-IsOrder, Text-IsOrder, by-IsOrder, or_else-IsOrder, compare_text, compare_text-eq,
  or_else,
}
use compose_monitor.Base.Sort.{sort, IsSorted, sort-IsSorted, sort-perm, IsSorted-eq_of_perm}
use compose_monitor.Domain.{Port, port_eq, port_beq, port_beq_iff}

-- The runtime's `container.Port`: the fields that are read, and the address it is bound to.
pub record ContainerPort : Type 0 where
  pub ip : Text
  pub private_port : ℕ
  pub public_port : ℕ
  pub kind : Text

unfoldable pub to_port : ContainerPort → Port
to_port port = record {
  host = port.public_port;
  container = port.private_port;
  protocol = port.kind;
}

-- Whether the map `seen` has a port.
unfoldable pub is_seen : Port → List Port → Bool
is_seen p [] = false
is_seen p (q ∷ seen) = q == p || is_seen p seen

-- The loop over the ports, with the map of those it has appended.
unfoldable pub distinct : List Port → List ContainerPort → List Port
unfolding is_seen to_port
distinct seen [] = []
distinct seen (port ∷ ports) =
    let p = to_port port in
    let skipped = distinct seen ports in
    let appended = p ∷ distinct (p ∷ seen) ports in if is_seen p seen then skipped else appended

-- The comparison handed to `slices.SortFunc`
unfoldable pub compare_ports : Port → Port → Ordering
unfolding compare_text
compare_ports a b =
    or_else (compare a.container b.container)
      (or_else (compare a.host b.host) (compare_text a.protocol b.protocol))

unfoldable pub to_ports : List ContainerPort → List Port
unfolding distinct compare_ports sort
to_ports [] = []
to_ports (port ∷ ports) = sort compare_ports (distinct [] (port ∷ ports))

compare_ports-IsOrder : IsOrder Port compare_ports
unfolding compare_ports
compare_ports-IsOrder = or_else-IsOrder (by-IsOrder (λ p. p.container) ℕ-IsOrder) (
    or_else-IsOrder (by-IsOrder (λ p. p.host) ℕ-IsOrder)
      (by-IsOrder (λ p. p.protocol) Text-IsOrder))

compare_ports-eq : (a b : Port) → compare_ports a b ≡ Ordering.eq → a ≡ b
unfolding compare_ports
compare_ports-eq a b h = ground (arith, compare_text-eq a.protocol b.protocol)

is_seen-distinct :
    (q : Port) (seen : List Port) (ports : List ContainerPort)
    → is_seen q (distinct seen ports) ≡ (is_seen q (map to_port ports) && not (is_seen q seen))
unfolding distinct is_seen
is_seen-distinct q seen [] = refl
is_seen-distinct q seen (port ∷ ports) = ground (
  arith,
  is_seen-distinct q seen ports,
  is_seen-distinct q (to_port port ∷ seen) ports,
  port_beq_iff (to_port port) q,
)

is_seen_iff : (q : Port) (ports : List Port) → (is_seen q ports ≡ true) ↔ Mem q ports
unfolding is_seen
is_seen_iff q [] = (λ e. cc, λ m. absurd (not-mem-nil m))
is_seen_iff q (p ∷ ports) = elim (Bool-cases (port_beq p q)) [
  | inl same ↦
      let e : p ≡ q = (port_beq_iff p q).0 same in
      (λ h. mem-cons.1 (Or.inl (sym e)), λ m. ground (arith, same))
  | inr other ↦
      let deeper = is_seen_iff q ports in
      (
        λ h. mem-cons_of_mem p (deeper.0 (ground (arith, h))),
        λ m. ground (
          arith,
          deeper.1 (
              Or.elim Mem-prop (eq-or-mem_of_mem-cons m)
                (λ e. absurd (ground (arith, (port_beq_iff p q).1 (sym e)))) (λ n. n)),
        ),
      )
]

is_seen_self :
    (p : Port) (seen : List Port) (ports : List ContainerPort)
    → is_seen p (distinct (p ∷ seen) ports) ≢ true
unfolding is_seen
is_seen_self p seen ports h =
    ground (arith, h, is_seen-distinct p (p ∷ seen) ports, (port_beq_iff p p).1 refl)

distinct-Nodup : (seen : List Port) (ports : List ContainerPort) → Nodup (distinct seen ports)
unfolding distinct
distinct-Nodup seen [] = Nodup-nil
distinct-Nodup seen (port ∷ ports) = elim (Bool-cases (is_seen (to_port port) seen)) [
  | inl old ↦ rw old (distinct-Nodup seen ports)
  | inr fresh ↦
      let p = to_port port in
      rw fresh (
        Nodup-cons.1 (
          λ m. is_seen_self p seen ports ((is_seen_iff p (distinct (p ∷ seen) ports)).1 m),
          distinct-Nodup (p ∷ seen) ports,
        ))
]

is_seen-to_ports :
    (q : Port) (ports : List ContainerPort)
    → is_seen q (distinct [] ports) ≡ is_seen q (map to_port ports)
unfolding is_seen
is_seen-to_ports q ports = ground (arith, is_seen-distinct q [] ports)

mem-distinct :
    (p : Port) (ports : List ContainerPort) → Mem p (distinct [] ports) ↔ Mem p (map to_port ports)
mem-distinct p ports = (
  λ m.
      (is_seen_iff p (map to_port ports)).0
        (sym (is_seen-to_ports p ports) ∙ (is_seen_iff p (distinct [] ports)).1 m),
  λ m.
      (is_seen_iff p (distinct [] ports)).0
        (is_seen-to_ports p ports ∙ (is_seen_iff p (map to_port ports)).1 m),
)

to_ports-perm : (ports : List ContainerPort) → Perm (to_ports ports) (distinct [] ports)
unfolding to_ports
to_ports-perm [] = Perm.refl []
to_ports-perm (port ∷ ports) = sort-perm compare_ports (distinct [] (port ∷ ports))

to_ports-IsSorted : (ports : List ContainerPort) → IsSorted compare_ports (to_ports ports)
unfolding to_ports
to_ports-IsSorted [] = tt
to_ports-IsSorted (port ∷ ports) =
    sort-IsSorted compare_ports compare_ports-IsOrder (distinct [] (port ∷ ports))

distinct-perm :
    (xs ys : List ContainerPort)
    → ((p : Port) → Mem p (map to_port xs) ↔ Mem p (map to_port ys))
    → Perm (distinct [] xs) (distinct [] ys)
distinct-perm xs ys same =
    (perm_ext_iff_of_Nodup (distinct-Nodup [] xs) (distinct-Nodup [] ys)).1 (λ p. (
      λ m. (mem-distinct p ys).1 ((same p).0 ((mem-distinct p xs).0 m)),
      λ m. (mem-distinct p xs).1 ((same p).1 ((mem-distinct p ys).0 m)),
    ))

-- Two lists of ports with the same mapped ports, however often and in whatever order each names
-- them, are mapped by `toPorts` to the same list.
pub to_ports-determined :
    (xs ys : List ContainerPort)
    → ((p : Port) → Mem p (map to_port xs) ↔ Mem p (map to_port ys))
    → to_ports xs ≡ to_ports ys
to_ports-determined xs ys same =
    IsSorted-eq_of_perm compare_ports compare_ports-IsOrder (to_ports xs) (to_ports ys)
      (λ a b m n. compare_ports-eq a b) (to_ports-IsSorted xs) (to_ports-IsSorted ys)
      (Perm.trans (to_ports-perm xs)
        (Perm.trans (distinct-perm xs ys same) (Perm.symm (to_ports-perm ys))))

-- `toPorts` returns exactly the mapped ports of its argument, each once, in order.
pub mem-to_ports :
    (ports : List ContainerPort)
    → ((p : Port) → Mem p (to_ports ports) ↔ Mem p (map to_port ports))
      × (Nodup (to_ports ports) × IsSorted compare_ports (to_ports ports))
mem-to_ports ports = (
  λ p. (
    λ m. (mem-distinct p ports).0 (Perm.subset (to_ports-perm ports) p m),
    λ m. Perm.subset (Perm.symm (to_ports-perm ports)) p ((mem-distinct p ports).1 m),
  ),
  (Perm.nodup (Perm.symm (to_ports-perm ports)) (distinct-Nodup [] ports), to_ports-IsSorted ports),
)
