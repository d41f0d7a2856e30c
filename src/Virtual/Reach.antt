-- ===== src/Virtual/Reach.antt =====
-- virtual-network.ts: the search for what the uplink reaches ends, and leaves nothing out.
use homelab_builder.Types.{VirtualNetwork, VirtualEdge}
use homelab_builder.Virtual.{
  switch_ids, connected_virtual_machines, uplink_id, reach_from, next_of, meet, Progress, visit,
}
use homelab_builder.Base.{
  length-keep-le, ◌∙◌, sym, ap, zero, both-second, ◌||◌, suc, both-first, ◌==◌, refl, and-true,
  length-append, inr, ==_self, inl, ==_iff, ◌<◌, not, none, contains-snoc, Bool-cases, ◌+◌, some,
  keep, false, arith, [], ◌≤◌, ◌≡◌, ◌∷◌, true, length, all, ◌++◌, ℕ, contains, Option, Bool, String,
  List, string_eq, nat_eq, int_eq,
}

-- The switches that are not reached yet.
abbrev unreached : List String → List String → ℕ
unreached switches reached = length (keep (λ s. not (contains reached s)) switches)

unreached-le :
    (switches reached : List String) (n : String)
    → unreached switches (reached ++ n ∷ []) ≤ unreached switches reached
unreached-le [] reached n = omega arith
unreached-le (s ∷ switches) reached n =
    ground (arith, unreached-le switches reached n, contains-snoc reached n s)

unreached-lt :
    (switches reached : List String) (n : String)
    → contains switches n ≡ true
    → contains reached n ≡ false
    → unreached switches (reached ++ n ∷ []) < unreached switches reached
unreached-lt [] reached n h k = absurd (ground arith)
unreached-lt (s ∷ switches) reached n h k = ground (
  arith,
  unreached-lt switches reached n,
  unreached-le switches reached n,
  contains-snoc reached n s,
  ==_iff s n,
  ==_self {A = String} n,
)

abbrev measure : List String → Progress → ℕ
measure switches p = length p.queue + unreached switches p.reached

meet-measure :
    (switches : List String) (next : Option String) (p : Progress)
    → measure switches (meet switches next p) ≤ measure switches p
meet-measure switches none p = omega arith
meet-measure switches (some n) p = elim (Bool-cases (contains p.reached n)) [
  | inl e ↦ rw (e) (omega arith)
  | inr e ↦ elim (Bool-cases (contains switches n)) [
    | inl f ↦
        rw (e, f)
          (omega (arith, length-append p.queue (n ∷ []), unreached-lt switches p.reached n f e))
    | inr f ↦ rw (e, f) (omega (arith, unreached-le switches p.reached n))
  ]
]

visit-measure :
    (switches : List String) (current : String) (edges : List VirtualEdge) (p : Progress)
    → measure switches (visit switches current edges p) ≤ measure switches p
unfolding visit
visit-measure switches current [] p = omega arith
visit-measure switches current (edge ∷ edges) p = omega (
  arith,
  visit-measure switches current edges (meet switches (next_of current edge) p),
  meet-measure switches (next_of current edge) p,
)

-- Whether what an edge leads to from a vertex is reached.
abbrev pub is_met : List String → Option String → Bool
is_met reached none = true
is_met reached (some next) = contains reached next

-- Every edge at a vertex leads to what is reached.
unfoldable pub is_done : List VirtualEdge → List String → String → Bool
is_done edges reached x = all (λ edge. is_met reached (next_of x edge)) edges

-- A round keeps what is reached and what is queued, and queues every new switch.
record Grows (switches : List String) (p q : Progress) : Type 0 where
  reached : (a : String) → contains p.reached a ≡ true → contains q.reached a ≡ true
  queue : (a : String) → contains p.queue a ≡ true → contains q.queue a ≡ true
  fresh :
      (a : String)
      → contains switches a ≡ true
      → contains p.reached a ≡ false
      → contains q.reached a ≡ true
      → contains q.queue a ≡ true

meet-Grows :
    (switches : List String) (next : Option String) (p : Progress)
    → Grows switches p (meet switches next p)
meet-Grows switches none p = record {
  reached = λ a h. h;
  queue = λ a h. h;
  fresh = λ a s h k. absurd (ground arith);
}
meet-Grows switches (some n) p = elim (Bool-cases (contains p.reached n)) [
  | inl e ↦
      rw (e)
        (record { reached = λ a h. h; queue = λ a h. h; fresh = λ a s h k. absurd (ground arith) })
  | inr e ↦ elim (Bool-cases (contains switches n)) [
    | inl f ↦
        rw (e, f)
          (record {
            reached = λ a h. ground (arith, contains-snoc p.reached n a);
            queue = λ a h. ground (arith, contains-snoc p.queue n a);
            fresh =
                λ a s h k. ground (arith, contains-snoc p.reached n a, contains-snoc p.queue n a);
          })
    | inr f ↦
        rw (e, f)
          (record {
            reached = λ a h. ground (arith, contains-snoc p.reached n a);
            queue = λ a h. h;
            fresh = λ a s h k. absurd (ground (arith, contains-snoc p.reached n a, ==_iff n a));
          })
  ]
]

Grows-trans :
    (switches : List String) (p q r : Progress)
    → Grows switches p q
    → Grows switches q r
    → Grows switches p r
Grows-trans switches p q r g h = record {
  reached = λ a m. h.reached a (g.reached a m);
  queue = λ a m. h.queue a (g.queue a m);
  fresh = λ a s out inside. elim (Bool-cases (contains q.reached a)) [
    | inl e ↦ h.queue a (g.fresh a s out e)
    | inr e ↦ h.fresh a s e inside
  ];
}

visit-Grows :
    (switches : List String) (current : String) (edges : List VirtualEdge) (p : Progress)
    → Grows switches p (visit switches current edges p)
unfolding visit
visit-Grows switches current [] p = record {
  reached = λ a h. h;
  queue = λ a h. h;
  fresh = λ a s h k. absurd (ground arith);
}
visit-Grows switches current (edge ∷ edges) p =
    let q = meet switches (next_of current edge) p in
    Grows-trans switches p q (visit switches current edges q)
      (meet-Grows switches (next_of current edge) p) (visit-Grows switches current edges q)

meet-met :
    (switches : List String) (next : Option String) (p : Progress)
    → is_met (meet switches next p).reached next ≡ true
meet-met switches none p = refl
meet-met switches (some n) p = elim (Bool-cases (contains p.reached n)) [
  | inl e ↦ rw (e) e
  | inr e ↦ rw (e) (ground (arith, contains-snoc p.reached n n, ==_self {A = String} n))
]

is_met-more :
    (reached more : List String) (next : Option String)
    → ((a : String) → contains reached a ≡ true → contains more a ≡ true)
    → is_met reached next ≡ true
    → is_met more next ≡ true
is_met-more reached more none h k = refl
is_met-more reached more (some n) h k = h n k

is_done-more :
    (edges : List VirtualEdge) (reached more : List String) (x : String)
    → ((a : String) → contains reached a ≡ true → contains more a ≡ true)
    → is_done edges reached x ≡ true
    → is_done edges more x ≡ true
unfolding is_done
is_done-more [] reached more x h k = refl
is_done-more (edge ∷ edges) reached more x h k =
    let here = is_met reached (next_of x edge) in
    let rest = all (λ e. is_met reached (next_of x e)) edges in
    and-true (is_met more (next_of x edge)) (all (λ e. is_met more (next_of x e)) edges)
      (is_met-more reached more (next_of x edge) h (both-first here rest k))
      (is_done-more edges reached more x h (both-second here rest k))

visit-done :
    (switches : List String) (current : String) (edges : List VirtualEdge) (p : Progress)
    → is_done edges (visit switches current edges p).reached current ≡ true
unfolding visit is_done
visit-done switches current [] p = refl
visit-done switches current (edge ∷ edges) p =
    let q = meet switches (next_of current edge) p in
    let r = visit switches current edges q in
    and-true (is_met r.reached (next_of current edge)) (is_done edges r.reached current)
      (is_met-more q.reached r.reached (next_of current edge)
        (visit-Grows switches current edges q).reached (meet-met switches (next_of current edge) p))
      (visit-done switches current edges q)

-- Whether a vertex passes traffic on: the uplink and every switch.
abbrev pub forwards : List String → String → Bool
forwards switches x = x == uplink_id || contains switches x

-- Every forwarder that was reached and left the queue is done.
abbrev IsSettled : List String → List VirtualEdge → Progress → Type 0
IsSettled switches edges p =
    (x : String)
    → forwards switches x ≡ true
    → contains p.reached x ≡ true
    → contains p.queue x ≡ false
    → is_done edges p.reached x ≡ true

true-false : (b : Bool) → b ≡ true → b ≡ false → ⊥
true-false b h k = ground arith

same_vertex :
    (edges : List VirtualEdge) (reached : List String) (current x : String)
    → current == x ≡ true
    → is_done edges reached current ≡ true
    → is_done edges reached x ≡ true
same_vertex edges reached current x same h =
    let e : current ≡ x = (==_iff current x).0 same in ap (is_done edges reached) (sym e) ∙ h

-- The uplink is always reached, so another forwarder is a switch.
forwards-switch :
    (switches reached : List String) (x : String)
    → forwards switches x ≡ true
    → contains reached uplink_id ≡ true
    → contains reached x ≡ false
    → contains switches x ≡ true
forwards-switch switches reached x forward up out = elim (Bool-cases (x == uplink_id)) [
  | inl e ↦
      let same : x ≡ uplink_id = (==_iff x uplink_id).0 e in
      absurd (true-false (contains reached uplink_id) up (ap (contains reached) (sym same) ∙ out))
  | inr e ↦ ground arith
]

visit-IsSettled :
    (switches : List String) (edges : List VirtualEdge) (current : String)
    (reached queue : List String)
    → contains reached uplink_id ≡ true
    → IsSettled switches edges (record { reached = reached; queue = current ∷ queue })
    → IsSettled switches edges
        (visit switches current edges (record { reached = reached; queue = queue }))
visit-IsSettled switches edges current reached queue up settled x forward inside out =
    let p : Progress = record { reached = reached; queue = queue } in
    let q = visit switches current edges p in
    let grown = visit-Grows switches current edges p in
    elim (Bool-cases (current == x)) [
      | inl e ↦ same_vertex edges q.reached current x e (visit-done switches current edges p)
      | inr e ↦ elim (Bool-cases (contains reached x)) [
        | inl f ↦
            is_done-more edges reached q.reached x grown.reached
              (settled x forward f (ground (arith, grown.queue x)))
        | inr f ↦ absurd (
            ground
              (arith, grown.fresh x (forwards-switch switches reached x forward up f) f inside))
      ]
    ]

-- What the search gives: enough fuel for it to end, and nothing left out.
pub record IsComplete (switches : List String) (edges : List VirtualEdge)
    (start result : List String) : Type 0 where
  pub kept : (a : String) → contains start a ≡ true → contains result a ≡ true
  pub closed :
      (x : String)
      → forwards switches x ≡ true
      → contains result x ≡ true
      → is_done edges result x ≡ true

reach_from-ends :
    (switches : List String) (edges : List VirtualEdge) (fuel : ℕ) (reached queue : List String)
    → length queue + unreached switches reached < fuel
    → contains reached uplink_id ≡ true
    → IsSettled switches edges (record { reached = reached; queue = queue })
    → (result : List String) × (reach_from switches edges fuel reached queue ≡ some result)
      × IsComplete switches edges reached result
unfolding reach_from
reach_from-ends switches edges zero reached queue h up settled = absurd (omega (arith, h))
reach_from-ends switches edges (suc fuel) reached [] h up settled =
    (reached, refl, record { kept = λ a m. m; closed = λ x f m. settled x f m refl })
reach_from-ends switches edges (suc fuel) reached (current ∷ queue) h up settled =
    let p : Progress = record { reached = reached; queue = queue } in
    let q = visit switches current edges p in
    let grown = visit-Grows switches current edges p in
    let found =
      reach_from-ends switches edges fuel q.reached q.queue
        (omega (arith, h, visit-measure switches current edges p)) (grown.reached uplink_id up)
        (visit-IsSettled switches edges current reached queue up settled) in
    (
      found.0,
      found.1,
      record { kept = λ a m. found.2.kept a (grown.reached a m); closed = found.2.closed },
    )

-- The search for what the uplink reaches ends on every network; what it gives contains the uplink, and
-- with the uplink or a switch everything that an edge of it leads to.
pub connected_virtual_machines-ends :
    (network : VirtualNetwork)
    → (result : List String) × (connected_virtual_machines network ≡ some result)
      × IsComplete (switch_ids network) network.edges (uplink_id ∷ []) result
unfolding connected_virtual_machines
connected_virtual_machines-ends network =
    let switches = switch_ids network in
    reach_from-ends switches network.edges (length switches + 2) (uplink_id ∷ []) (uplink_id ∷ [])
      (omega (arith, length-keep-le (λ s. not (contains (uplink_id ∷ []) s)) switches)) refl
      (λ x forward inside out. absurd (true-false (contains (uplink_id ∷ []) x) inside out))
