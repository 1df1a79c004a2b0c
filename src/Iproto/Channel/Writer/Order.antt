-- ===== src/Iproto/Channel/Writer/Order.antt =====
-- What a round of the writer does with the packets.
use activerecord.Prelude.{
  ℕ, ◌+◌, ◌≤◌, ◌<◌, List, [], ◌∷◌, ◌++◌, append-nil, append_assoc, length, All, Bool, true, false,
  ◌==◌, ltb, if◌then◌else◌, ◌≡◌, ◌≢◌, refl, sym, ap, ap₂, subst, ◌∙◌, All-append, ◌⊎◌, inl, inr,
  Bool-cases, arith,
}
use activerecord.Go.{Result, ok, Bytes, bind_ok, ok_same}
use activerecord.Iproto.Channel.{Cause}
use activerecord.Iproto.Channel.Writer.{
  Buffers, Writer, flush, append_packet, append_packets, flush_if_idle, gather, round,
}

-- What has been taken out of the queue, in order.
abbrev pub taken : Buffers → List Bytes
taken b = b.sent ++ b.held

abbrev pub total : List Bytes → ℕ
total [] = 0
total (p ∷ ps) = length p + total ps

-- The length is that of the packets held, and none of them is empty (each has a header).
pub record IsTight (b : Buffers) : Type 0 where
  pub measured : b.n ≡ total b.held
  pub headed : All (λ p. 0 < length p) b.held

total-append : (ps qs : List Bytes) → total (ps ++ qs) ≡ total ps + total qs
total-append [] qs = omega arith
total-append (p ∷ ps) qs = omega (arith, total-append ps qs)

module _ (works : List Bytes → Bool) where
  nothing_held : (ps : List Bytes) → All (λ p. 0 < length p) ps → total ps ≡ 0 → ps ≡ []
  nothing_held [] h e = refl
  nothing_held (p ∷ ps) h e = absurd (let x = h.0 in omega (arith, x, e))

  Flushed : Buffers → Buffers → Type 0
  Flushed b b' = (taken b' ≡ taken b) × (b'.held ≡ []) × IsTight b'

  flush_taken : (b b' : Buffers) → flush works b ≡ ok b' → IsTight b → Flushed b b'
  unfolding flush Flushed
  flush_taken b b' e t = elim (Bool-cases (b.n == 0)) [
    | inl z ↦
        let none_held = nothing_held b.held t.headed (let x = t.measured in ground arith) in
        let same : b ≡ b' = ok_same (rw (z, if◌then◌else◌) at e) in
        subst (Flushed b) same (refl, none_held, t)
    | inr z ↦ elim (Bool-cases (works b.held)) [
      | inl w ↦
          let same = ok_same (rw (z, w, if◌then◌else◌) at e) in
          subst (Flushed b) same (append-nil _, refl, record { measured = refl; headed = tt })
      | inr w ↦ (let e' = rw (z, w, if◌then◌else◌) at e in absurd (cc))
    ]
  ]

  Added : List Bytes → Buffers → Buffers → Type 0
  Added ps b b' = (taken b' ≡ taken b ++ ps) × IsTight b'

  hold-IsTight :
      (p : Bytes) (b : Buffers)
      → 0 < length p
      → IsTight b
      → IsTight (record b { held = b.held ++ (p ∷ []); n = b.n + length p })
  hold-IsTight p b h t = record {
    measured = (let x = total-append b.held (p ∷ []) in let y = t.measured in omega (arith, x, y));
    headed = All-append (λ (q : Bytes). 0 < length q) b.held (p ∷ []) t.headed (h, tt);
  }

  append_packet_taken :
      (p : Bytes) (b b' : Buffers)
      → 0 < length p
      → append_packet works p b ≡ ok b'
      → IsTight b
      → Added (p ∷ []) b b'
  unfolding append_packet Added Flushed
  append_packet_taken p b b' h e t =
      let c : Buffers = record b { held = b.held ++ (p ∷ []); n = b.n + length p } in
      let u = hold-IsTight p b h t in
      let joined : taken c ≡ taken b ++ (p ∷ []) = sym (append_assoc b.sent b.held (p ∷ [])) in
      elim (Bool-cases (ltb b.limit (b.n + length p))) [
        | inl z ↦
            (let (x, y, v) = flush_taken c b' (rw (z, if◌then◌else◌) at e) u in (x ∙ joined, v))
        | inr z ↦ subst (Added (p ∷ []) b) (ok_same (rw (z, if◌then◌else◌) at e)) (joined, u)
      ]

  append_packets_taken :
      (ps : List Bytes) (b b' : Buffers)
      → All (λ p. 0 < length p) ps
      → append_packets works ps b ≡ ok b'
      → IsTight b
      → Added ps b b'
  unfolding append_packets Added
  append_packets_taken [] b b' h e t = subst (Added [] b) (ok_same e) (sym (append-nil _), t)
  append_packets_taken (p ∷ ps) b b' h e t =
      let (c, f, g) = bind_ok (append_packet works p b) _ e in
      let (x, u) = append_packet_taken p b c h.0 f t in
      let (y, v) = append_packets_taken ps c b' h.1 g u in
      (y ∙ (ap (λ l. l ++ ps) x ∙ append_assoc (taken b) (p ∷ []) ps), v)

  -- A writer that waits for nothing: what it holds is flushed when the queue is found empty.
  abbrev pub IsReady : Writer → Type 0
  IsReady w =
      IsTight w.buffers × All (λ p. 0 < length p) w.queue × ((w.buffers.held ≡ []) ⊎ (w.queue ≢ []))

  flush_if_idle_taken :
      (arrived : List Bytes) (b b' : Buffers)
      → flush_if_idle works arrived b ≡ ok b'
      → IsTight b
      → (taken b' ≡ taken b) × IsTight b' × ((b'.held ≡ []) ⊎ (arrived ≢ []))
  unfolding flush_if_idle Flushed
  flush_if_idle_taken [] b b' e t = (let (x, y, v) = flush_taken b b' e t in (x, v, inl y))
  flush_if_idle_taken (p ∷ ps) b b' e t =
      (ap taken (sym (ok_same e)), subst IsTight (ok_same e) t, inr (λ x. cc))

  Rounded : List Bytes → Writer → Writer → Type 0
  Rounded arrived w w' =
      ((taken w'.buffers ++ w'.queue) ≡ (taken w.buffers ++ (w.queue ++ arrived)))
      × IsReady w'
      × (arrived ≡ [] → w'.buffers.held ≡ [])

  gather_taken :
      (queue arrived : List Bytes) (w w' : Writer)
      → w.queue ≡ queue
      → gather works queue arrived w ≡ ok w'
      → IsReady w
      → All (λ p. 0 < length p) arrived
      → Rounded arrived w w'
  unfolding gather Rounded Added
  gather_taken [] arrived w w' q e r a =
      let none_held : w.buffers.held ≡ [] = elim (r.2) [ inl h ↦ h | inr h ↦ absurd (h q) ] in
      subst (Rounded arrived w) (ok_same e) (rw q refl, (r.0, a, inl none_held), λ x. none_held)
  gather_taken (p ∷ ps) arrived w w' q e r a =
      let (b, f, g) = bind_ok (append_packets works (p ∷ ps) w.buffers) _ e in
      let (c, k, l) = bind_ok (flush_if_idle works arrived b) _ g in
      let (x, t) =
        append_packets_taken (p ∷ ps) w.buffers b (subst (All (λ p. 0 < length p)) q (r.1)) f
          (r.0) in
      let (y, u, z) = flush_if_idle_taken arrived b c k t in
      subst (Rounded arrived w) (ok_same l) (
        rw q (ap (λ t. t ++ arrived) (y ∙ x) ∙ append_assoc (taken w.buffers) (p ∷ ps) arrived),
        (u, a, z),
        λ n. elim z [ inl h ↦ h | inr h ↦ absurd (h n) ],
      )

  -- A round of the writer that does not fail keeps every packet, in order: what was taken before, the
  -- queue and what arrived are what is taken now and the queue. When nothing arrived meanwhile, the
  -- connection has got every packet that was taken.
  pub round_keeps :
      (stopper : Bool) (arrived : List Bytes) (w w' : Writer)
      → round works stopper arrived w ≡ ok w'
      → IsReady w
      → All (λ p. 0 < length p) arrived
      → ((taken w'.buffers ++ w'.queue) ≡ (taken w.buffers ++ (w.queue ++ arrived)))
        × IsReady w'
        × (arrived ≡ [] → w'.buffers.held ≡ [])
  unfolding round Rounded
  round_keeps stopper arrived w w' e r a =
      gather_taken w.queue arrived (record w { stopping = stopper }) w' refl e r a

  abbrev kept : Buffers → List Bytes → ℕ → Result Cause Buffers
  kept b held n = ok (record b { held = held; n = n })

  append_packets_fit :
      (ps : List Bytes) (b : Buffers)
      → b.n + total ps ≤ b.limit
      → append_packets works ps b ≡ ok (record b { held = b.held ++ ps; n = b.n + total ps })
  unfolding append_packets append_packet
  append_packets_fit [] b h = ap₂ (kept b) (sym (append-nil b.held)) (omega arith)
  append_packets_fit (p ∷ ps) b h =
      let room : ltb b.limit (b.n + length p) ≡ false = ground (arith, h) in
      let c : Buffers = record b { held = b.held ++ (p ∷ []); n = b.n + length p } in
      rw (room, if◌then◌else◌)
        (append_packets_fit ps c (omega (arith, h))
          ∙ ap₂ (kept b) (append_assoc b.held (p ∷ []) ps) (omega arith))

  -- The last round, with the stopper, when packets arrive before its test of the queue: the loop ends,
  -- and the packets of the queue, which fit the buffers, are held and never given to the connection.
  pub last_round_holds :
      (p q : Bytes) (ps qs : List Bytes) (w : Writer)
      → w.queue ≡ p ∷ ps
      → w.buffers.n + total (p ∷ ps) ≤ w.buffers.limit
      → (w' : Writer) × (round works true (q ∷ qs) w ≡ ok w')
        × (w'.stopping ≡ true)
        × (w'.buffers.sent ≡ w.buffers.sent)
        × (w'.buffers.held ≡ w.buffers.held ++ (p ∷ ps))
  unfolding round gather flush_if_idle
  last_round_holds p q ps qs w e h = (
    record w {
      stopping = true;
      queue = q ∷ qs;
      buffers = record (w.buffers) {
        held = w.buffers.held ++ (p ∷ ps);
        n = w.buffers.n + total (p ∷ ps);
      };
    },
    rw e (rw (append_packets_fit (p ∷ ps) w.buffers h) refl),
    refl,
    refl,
    refl,
  )
