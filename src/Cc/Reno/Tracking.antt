-- ===== src/Cc/Reno/Tracking.antt =====
-- What common/reno.hpp remembers of packets and round trips, against a reading of the history.
use win_udpsharded_echo.Prelude.{
  ℕ, ◌≡◌, refl, ap, ◌∙◌, false, List, [], ◌∷◌, Option, none, some, arith, ltb, ◌==◌, if◌then◌else◌,
  lookup, insert, erase, lookup-insert, lookup-erase,
}
use win_udpsharded_echo.Float.{Double}
use win_udpsharded_echo.Cc.{Event, sent, acked, polled, run}
use win_udpsharded_echo.Cc.Reno.{
  Reno, update_target_rate, on_send, observe_rtt, acknowledge, on_ack, decrease, on_poll,
  reno_congestion_controller,
}

-- When the packet was last sent, if no acknowledgement of it came after that. `before` is what is
-- known before the history.
abbrev pub outstanding_since : ℕ → Option ℕ → List Event → Option ℕ
outstanding_since seq before [] = before
outstanding_since seq before (sent now s ∷ es) =
    outstanding_since seq (if s == seq then some now else before) es
outstanding_since seq before (acked now s rtt ∷ es) =
    outstanding_since seq (if s == seq then none else before) es
outstanding_since seq before (polled now ∷ es) = outstanding_since seq before es

-- The least positive sample, 0 if there is none.
abbrev pub least_sample : ℕ → List Event → ℕ
least_sample least [] = least
least_sample least (sent now s ∷ es) = least_sample least es
least_sample least (acked now s rtt ∷ es) =
    least_sample
      (if rtt == 0 then least else if least == 0 then rtt else if ltb rtt least then rtt else least)
      es
least_sample least (polled now ∷ es) = least_sample least es

module _ {F : Type 0} ⦃d : Double F⦄ where
  -- What the rate's recomputation leaves alone.
  pub update_target_rate_keeps :
      (s : Reno F)
      → let t = update_target_rate s in
        (t.unlimited ≡ s.unlimited)
        × (t.send_times ≡ s.send_times)
        × (t.min_rtt_ns ≡ s.min_rtt_ns)
        × (t.last_rtt_ns ≡ s.last_rtt_ns)
        × (t.cwnd_packets ≡ s.cwnd_packets)
        × (t.ssthresh ≡ s.ssthresh)
  unfolding update_target_rate
  update_target_rate_keeps s = ground arith

  on_send_tracks :
      (now seq : ℕ) (s : Reno F)
      → s.unlimited ≡ false
      → let t = on_send now seq s in
        (t.unlimited ≡ false)
        × (t.send_times ≡ insert seq now s.send_times)
        × (t.min_rtt_ns ≡ s.min_rtt_ns)
  unfolding on_send
  on_send_tracks now seq s h = ground arith

  on_ack_tracks :
      (now seq rtt : ℕ) (s : Reno F)
      → s.unlimited ≡ false
      → let t = on_ack now seq rtt s in
        (t.unlimited ≡ false)
        × (t.send_times ≡ erase seq s.send_times)
        × (t.min_rtt_ns ≡ (
            if rtt == 0
            then s.min_rtt_ns
            else if s.min_rtt_ns == 0
            then rtt
            else if ltb rtt s.min_rtt_ns
            then rtt
            else s.min_rtt_ns))
  unfolding on_ack acknowledge observe_rtt
  on_ack_tracks now seq rtt s h = ground (arith, update_target_rate_keeps (acknowledge seq rtt s))

  on_poll_tracks :
      (now : ℕ) (s : Reno F)
      → let t = on_poll now s in
        (t.unlimited ≡ s.unlimited) × (t.send_times ≡ s.send_times) × (t.min_rtt_ns ≡ s.min_rtt_ns)
  unfolding on_poll decrease
  on_poll_tracks now s = ground (arith, update_target_rate_keeps (decrease s))

  -- After any history of a controller that is not unlimited, the table holds for each sequence
  -- number the time of its last send, or nothing if the packet was acknowledged since, and the
  -- minimum round trip is the least positive sample of the history and of what was known before.
  pub run-tracks :
      (s : Reno F) (es : List Event) (seq : ℕ)
      → s.unlimited ≡ false
      → let t = run reno_congestion_controller s es in
        (lookup seq t.send_times ≡ outstanding_since seq (lookup seq s.send_times) es)
        × (t.min_rtt_ns ≡ least_sample s.min_rtt_ns es)
  unfolding run
  run-tracks s [] seq h = (refl, refl)
  run-tracks s (sent now q ∷ es) seq h =
      let (limited, table, least) = on_send_tracks now q s h in
      let ih = run-tracks (on_send now q s) es seq limited in
      let entry = ap (lookup seq) table ∙ lookup-insert q seq now s.send_times in
      (ih.0 ∙ ap (λ o. outstanding_since seq o es) entry, ih.1 ∙ ap (λ m. least_sample m es) least)
  run-tracks s (acked now q rtt ∷ es) seq h =
      let (limited, table, least) = on_ack_tracks now q rtt s h in
      let ih = run-tracks (on_ack now q rtt s) es seq limited in
      let entry = ap (lookup seq) table ∙ lookup-erase q seq s.send_times in
      (ih.0 ∙ ap (λ o. outstanding_since seq o es) entry, ih.1 ∙ ap (λ m. least_sample m es) least)
  run-tracks s (polled now ∷ es) seq h =
      let (limited, table, least) = on_poll_tracks now s in
      let ih = run-tracks (on_poll now s) es seq (limited ∙ h) in
      let entry = ap (lookup seq) table in
      (ih.0 ∙ ap (λ o. outstanding_since seq o es) entry, ih.1 ∙ ap (λ m. least_sample m es) least)
