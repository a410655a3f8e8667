-- ===== src/Esx/Grouping.antt =====
-- ParseHostList: each host has exactly its own nodes.
use maintenance_controller.Base.{
  Bool, true, false, List, [], ◌∷◌, ◌++◌, append-nil, append_assoc, ◌≡◌, refl, sym, ap, ◌∙◌, ◌⊎◌,
  inl, inr, Outcome, done, panicked, Bool-cases, arith, any, eq_iff, if◌then◌else◌,
}
use mathlib.Core.Path.{subst}
use maintenance_controller.Errors.{Error}
use maintenance_controller.World.{Node}
use maintenance_controller.Esx.Hosts.{
  HostInfo, Host, same_host, parse_host_info, add_to_host, with_info, group_nodes, parse_host_list,
}

-- The nodes that the map has for a host.
abbrev pub nodes_of : HostInfo → List Host → List Node
nodes_of info [] = []
nodes_of info (h ∷ hs) = if same_host h.info info then h.nodes else nodes_of info hs

abbrev pub is_on_host : HostInfo → Outcome (Error ⊎ HostInfo) → Bool
is_on_host info panicked = false
is_on_host info (done (inl err)) = false
is_on_host info (done (inr i)) = same_host i info

-- The nodes whose labels name the host, in the order of the list.
abbrev pub on_host : HostInfo → List Node → List Node
on_host info [] = []
on_host info (n ∷ ns) =
    if is_on_host info (parse_host_info n) then n ∷ on_host info ns else on_host info ns

-- No host stands twice in the map.
abbrev pub DistinctHosts : List Host → Type 0
DistinctHosts [] = Unit
DistinctHosts (h ∷ hs) = (any (λ o. same_host o.info h.info) hs ≡ false) × DistinctHosts hs

same_host-congr : (a b c : HostInfo) → same_host a b ≡ true → same_host a c ≡ same_host b c
same_host-congr a b c h =
    ground (arith, eq_iff a.name b.name, eq_iff a.availability_zone b.availability_zone)

same_host_comm : (a b : HostInfo) → same_host a b ≡ same_host b a
same_host_comm a b = ground (
  arith,
  eq_iff a.name b.name,
  eq_iff b.name a.name,
  eq_iff a.availability_zone b.availability_zone,
  eq_iff b.availability_zone a.availability_zone,
)

nodes_of-add_to_host :
    (info i : HostInfo) (n : Node) (hs : List Host)
    → nodes_of info (add_to_host i n hs)
      ≡ (if same_host i info then nodes_of info hs ++ (n ∷ []) else nodes_of info hs)
unfolding add_to_host
nodes_of-add_to_host info i n [] = refl
nodes_of-add_to_host info i n (h ∷ hs) = elim (Bool-cases (same_host h.info i)) [
  | inl y ↦ rw (y, ← same_host-congr h.info i info y) (merged (same_host h.info info))
  | inr d ↦
      rw (d, nodes_of-add_to_host info i n hs)
        (elim (Bool-cases (same_host h.info info)) [ inl y ↦ rw y (apart y d) | inr e ↦ rw e refl ])
]
  where
    merged :
        (b : Bool)
        → (if b then h.nodes ++ (n ∷ []) else nodes_of info hs) ≡ (
            if b
            then (if b then h.nodes else nodes_of info hs) ++ (n ∷ [])
            else (if b then h.nodes else nodes_of info hs))
    merged true = refl
    merged false = refl

    apart :
        same_host h.info info ≡ true
        → same_host h.info i ≡ false
        → h.nodes ≡ (if same_host i info then h.nodes ++ (n ∷ []) else h.nodes)
    apart y d = rw (same_host_comm i info, ← same_host-congr h.info info i y, d) refl

any-add_to_host :
    (o i : HostInfo) (n : Node) (hs : List Host)
    → same_host i o ≡ false
    → any (λ h. same_host h.info o) (add_to_host i n hs) ≡ any (λ h. same_host h.info o) hs
unfolding add_to_host
any-add_to_host o i n [] h = rw h refl
any-add_to_host o i n (x ∷ hs) h = elim (Bool-cases (same_host x.info i)) [
  | inl y ↦ rw y refl
  | inr d ↦ rw (d, any-add_to_host o i n hs h) refl
]

add_to_host-Distinct :
    (i : HostInfo) (n : Node) (hs : List Host)
    → DistinctHosts hs
    → DistinctHosts (add_to_host i n hs)
unfolding add_to_host
add_to_host-Distinct i n [] h = (refl, tt)
add_to_host-Distinct i n (x ∷ hs) h = elim (Bool-cases (same_host x.info i)) [
  | inl y ↦ rw y h
  | inr d ↦ rw d (
    any-add_to_host x.info i n hs (same_host_comm i x.info ∙ d) ∙ h.0,
    add_to_host-Distinct i n hs h.1,
  )
]

abbrev Grouped : List Node → List Host → List Host → Type 0
Grouped ns hosts result =
    ((info : HostInfo) → nodes_of info result ≡ nodes_of info hosts ++ on_host info ns)
    × DistinctHosts result

placed :
    (b : Bool) (n : Node) (xs ys : List Node)
    → (if b then xs ++ (n ∷ []) else xs) ++ ys ≡ xs ++ (if b then n ∷ ys else ys)
placed true n xs ys = append_assoc xs (n ∷ []) ys
placed false n xs ys = refl

with_info-done :
    (r : Outcome (Error ⊎ HostInfo)) (rest : HostInfo → Outcome (Error ⊎ List Host))
    (result : List Host)
    → with_info r rest ≡ done (inr result)
    → (i : HostInfo) × (r ≡ done (inr i)) × (rest i ≡ done (inr result))
with_info-done panicked rest result e = cc
with_info-done (done (inl err)) rest result e = cc
with_info-done (done (inr i)) rest result e = (i, refl, e)

on_host_cons :
    (info i : HostInfo) (n : Node) (ns : List Node)
    → parse_host_info n ≡ done (inr i)
    → on_host info (n ∷ ns) ≡ (if same_host i info then n ∷ on_host info ns else on_host info ns)
on_host_cons info i n ns e =
    ap (λ r. if is_on_host info r then n ∷ on_host info ns else on_host info ns) e

abbrev parsed_as : List Host → Outcome (Error ⊎ List Host)
parsed_as hosts = done (inr hosts)

parsed_as_inj : (xs ys : List Host) → parsed_as xs ≡ parsed_as ys → xs ≡ ys
parsed_as_inj xs ys e = cc

group_nodes-Grouped :
    (ns : List Node) (hosts result : List Host)
    → DistinctHosts hosts
    → group_nodes ns hosts ≡ done (inr result)
    → Grouped ns hosts result
unfolding group_nodes
group_nodes-Grouped [] hosts result h e =
    let same = parsed_as_inj hosts result e in
    (
      (λ info. ap (nodes_of info) (sym same) ∙ sym (append-nil (nodes_of info hosts))),
      subst DistinctHosts same h,
    )
group_nodes-Grouped (n ∷ ns) hosts result h e =
    let (i, parsed, rest) =
      with_info-done (parse_host_info n) (λ i. group_nodes ns (add_to_host i n hosts)) result e in
    let (nodes, distinct) =
      group_nodes-Grouped ns (add_to_host i n hosts) result (add_to_host-Distinct i n hosts h)
        rest in
    (
      (λ info.
          nodes info
          ∙ (ap (λ m. m ++ on_host info ns) (nodes_of-add_to_host info i n hosts)
              ∙ (placed (same_host i info) n (nodes_of info hosts) (on_host info ns)
                  ∙ ap (λ m. nodes_of info hosts ++ m) (sym (on_host_cons info i n ns parsed))))),
      distinct,
    )

-- If ParseHostList returns hosts, no host stands twice among them, and each host has exactly those
-- nodes of the list whose labels name it, in the order of the list.
pub parse_host_list_groups :
    (ns : List Node) (result : List Host)
    → parse_host_list ns ≡ done (inr result)
    → ((info : HostInfo) → nodes_of info result ≡ on_host info ns) × DistinctHosts result
unfolding parse_host_list
parse_host_list_groups ns result e = group_nodes-Grouped ns [] result tt e
