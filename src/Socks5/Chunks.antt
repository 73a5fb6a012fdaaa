-- ===== src/Socks5/Chunks.antt =====
-- src/socks5.js: the handshake, in whatever chunks the proxy's bytes come, and its single settling.
use mathlib.Core.List.{append_assoc}
use mathlib.Core.Path.{subst}
use strfry_namecoin_policy.Prelude.{
  ℕ, ◌≤◌, ◌<◌, ◌≡◌, refl, sym, ap, ◌∙◌, inl, inr, false, none, some, List, [], ◌∷◌, ◌++◌, length,
  drop, ltb, arith, length-append, map, Bool-cases,
}
use strfry_namecoin_policy.Script.{Bytes}
use strfry_namecoin_policy.Socks5.{
  Socket, Event, connected, chunk, fails, Outcome, Failure, finish, resolved, wait, done, greeting,
  reply, hello, connect_request, greeted, read_reply, replied, on_event, on_events, fresh,
}
use strfry_namecoin_policy.Socks5.Handshake.{
  Address, IsAddress, reply_bytes, same_at, read_reply-done, read_reply-wait,
}

abbrev pub joined : List Bytes → Bytes
joined [] = []
joined (c ∷ cs) = c ++ joined cs

-- A list that is long enough has all of the front of one that it is a front of.
front :
    (r b q x : Bytes)
    → b ++ q ≡ r ++ x
    → length r ≤ length b
    → (y : Bytes) × (b ≡ r ++ y) × (y ++ q ≡ x)
front [] b q x e h = (b, refl, e)
front (a ∷ r) [] q x e h = absurd (omega (arith, h))
front (a ∷ r) (c ∷ b) q x e h =
    let (y, is, rest) = front r b q x (ap (drop 1) e) (omega (arith, h)) in
    (y, rw (same_at 0 c a _ _ e refl refl) (ap (◌∷◌ a) is), rest)

module _ (host : Bytes) (port : ℕ) where
  abbrev pub feed : List Bytes → Socket → Socket
  feed cs s = on_events host port (map chunk cs) s

  on_events-append :
      (es fs : List Event) (s : Socket)
      → on_events host port (es ++ fs) s ≡ on_events host port fs (on_events host port es s)
  on_events-append [] fs s = refl
  on_events-append (e ∷ es) fs s = on_events-append es fs (on_event host port e s)

  chunk_ignored :
      (c : Bytes) (s : Socket) {o : Outcome}
      → s.settled ≡ some o
      → (on_event host port (chunk c) s).settled ≡ some o
  unfolding on_event
  chunk_ignored c s h = ground (arith, h)

  failure_ignored :
      (f : Failure) (s : Socket) {o : Outcome}
      → s.settled ≡ some o
      → (on_event host port (fails f) s).settled ≡ some o
  unfolding on_event
  failure_ignored f s h = rw (h, finish) h

  -- Once the promise is settled, no event settles it again.
  pub on_events-settled :
      (es : List Event) (s : Socket) {o : Outcome}
      → s.settled ≡ some o
      → (on_events host port es s).settled ≡ some o
  unfolding on_event
  on_events-settled [] s h = h
  on_events-settled (connected ∷ es) s h = on_events-settled es _ h
  on_events-settled (chunk c ∷ es) s {o} h =
      on_events-settled es _ {o = o} (chunk_ignored c s {o = o} h)
  on_events-settled (fails f ∷ es) s {o} h =
      on_events-settled es _ {o = o} (failure_ignored f s {o = o} h)

  -- A tunnel: its promise is resolved with these bytes of it.
  pub record IsTunnel (leftover : Bytes) (written : List Bytes) (s : Socket) : Type 0 where
    pub is_settled : s.settled ≡ some (resolved leftover)
    pub has_written : s.written ≡ written

  awaiting : Bytes → List Bytes → Socket
  awaiting buf written = record { stage = reply; buf = buf; settled = none; written = written }

  chunk-wait :
      (p c : Bytes) (w : List Bytes)
      → read_reply (p ++ c) ≡ wait
      → on_event host port (chunk c) (awaiting p w) ≡ awaiting (p ++ c) w
  unfolding on_event replied awaiting read_reply
  chunk-wait p c w h = rw h refl

  chunk-done :
      (p c y : Bytes) (w : List Bytes)
      → read_reply (p ++ c) ≡ done y
      → IsTunnel y w (on_event host port (chunk c) (awaiting p w))
  unfolding on_event replied awaiting read_reply
  chunk-done p c y w h = rw h (record { is_settled = refl; has_written = refl })

  feed-reply :
      (rsv : ℕ) (address : Address) (bound x p : Bytes) (cs w : List Bytes)
      → IsAddress address
      → length bound ≡ 2
      → p ++ joined cs ≡ reply_bytes rsv address bound ++ x
      → length p < length (reply_bytes rsv address bound)
      → (before after : List Bytes) × (cs ≡ before ++ after)
        × (leftover : Bytes) × (leftover ++ joined after ≡ x)
        × IsTunnel leftover w (feed before (awaiting p w))
  feed-reply rsv address bound x p [] w h k e l = absurd (
      omega (
        arith,
        ap length e,
        length-append p [],
        length-append (reply_bytes rsv address bound) x,
        l,
      ))
  feed-reply rsv address bound x p (c ∷ cs) w h k e l =
      let r = reply_bytes rsv address bound in
      let split : (p ++ c) ++ joined cs ≡ r ++ x = append_assoc p c (joined cs) ∙ e in
      elim (Bool-cases (ltb (length (p ++ c)) (length r))) [
        | inl short ↦
            let more =
              read_reply-wait rsv address bound x (p ++ c) (joined cs) h k split
                (ground (arith, short)) in
            let (before, after, is, leftover, rest, t) =
              feed-reply rsv address bound x (p ++ c) cs w h k split (ground (arith, short)) in
            (
              c ∷ before,
              after,
              ap (◌∷◌ c) is,
              leftover,
              rest,
              subst (λ s. IsTunnel leftover w (feed before s)) (sym (chunk-wait p c w more)) t,
            )
        | inr full ↦
            let (y, is, rest) = front r (p ++ c) (joined cs) x split (ground (arith, full)) in
            (
              c ∷ [],
              cs,
              refl,
              y,
              rest,
              chunk-done p c y w (rw is (read_reply-done rsv address bound y h k)),
            )
      ]

  feed-awaiting : (gs w : List Bytes) → joined gs ≡ [] → feed gs (awaiting [] w) ≡ awaiting [] w
  unfolding read_reply
  feed-awaiting [] w h = refl
  feed-awaiting ([] ∷ gs) w h = ap (feed gs) (chunk-wait [] [] w refl) ∙ feed-awaiting gs w h
  feed-awaiting ((a ∷ c) ∷ gs) w h = absurd (omega (arith, ap length h))

  greeting_with : Bytes → List Bytes → Socket
  greeting_with buf written = record {
    stage = greeting;
    buf = buf;
    settled = none;
    written = written;
  }

  greeted-short :
      (buf : Bytes) (s : Socket) → length buf < 2 → greeted host port buf s ≡ record s { buf = buf }
  unfolding greeted
  greeted-short [] s h = refl
  greeted-short (a ∷ []) s h = refl
  greeted-short (a ∷ b ∷ buf) s h = absurd (omega (arith, h))

  greeted-full :
      (y : Bytes) (s : Socket)
      → port ≤ 65535
      → greeted host port (5 ∷ 0 ∷ y) s
        ≡ record s { buf = y; stage = reply; written = s.written ++ connect_request host port ∷ [] }
  unfolding greeted
  greeted-full y s h = let fits : ltb 65535 port ≡ false = ground (arith, h) in rw fits refl

  greeting-short :
      (p c : Bytes) (w : List Bytes)
      → length (p ++ c) < 2
      → on_event host port (chunk c) (greeting_with p w) ≡ greeting_with (p ++ c) w
  unfolding on_event greeting_with
  greeting-short p c w h = greeted-short (p ++ c) (greeting_with p w) h

  greeting-full :
      (p c y : Bytes) (w : List Bytes)
      → p ++ c ≡ 5 ∷ 0 ∷ y
      → y ≡ []
      → port ≤ 65535
      → on_event host port (chunk c) (greeting_with p w)
        ≡ awaiting [] (w ++ connect_request host port ∷ [])
  unfolding on_event greeting_with awaiting
  greeting-full p c y w is nothing k =
      ap (λ b. greeted host port b (greeting_with p w)) (is ∙ ap (λ y. 5 ∷ 0 ∷ y) nothing)
      ∙ greeted-full [] (greeting_with p w) k

  nothing_left : (y q : Bytes) → y ++ q ≡ [] → (y ≡ []) × (q ≡ [])
  nothing_left [] q e = (refl, e)
  nothing_left (a ∷ y) q e = absurd (omega (arith, ap length e))

  feed-greeting :
      (p : Bytes) (gs w : List Bytes)
      → p ++ joined gs ≡ 5 ∷ 0 ∷ []
      → length p < 2
      → port ≤ 65535
      → feed gs (greeting_with p w) ≡ awaiting [] (w ++ connect_request host port ∷ [])
  feed-greeting p [] w e h k = absurd (omega (arith, ap length e, length-append p [], h))
  feed-greeting p (c ∷ gs) w e h k =
      let split : (p ++ c) ++ joined gs ≡ 5 ∷ 0 ∷ [] = append_assoc p c (joined gs) ∙ e in
      elim (Bool-cases (ltb (length (p ++ c)) 2)) [
        | inl short ↦
            ap (feed gs) (greeting-short p c w (ground (arith, short)))
            ∙ feed-greeting (p ++ c) gs w split (ground (arith, short)) k
        | inr full ↦
            let (y, is, rest) =
              front (5 ∷ 0 ∷ []) (p ++ c) (joined gs) [] split (ground (arith, full)) in
            let (empty, ended) = nothing_left y (joined gs) rest in
            ap (feed gs) (greeting-full p c y w is empty k)
            ∙ feed-awaiting gs (w ++ connect_request host port ∷ []) ended
      ]

  -- For a port up to 65535, and whatever the chunks of the greeting's reply and of what follows
  -- it, if they make up the two bytes of a proxy that wants no authentication and then a reply
  -- that the request has succeeded: the socket is handed over within these chunks, having
  -- written the greeting and the request, and the bytes that it is handed over with, with the
  -- chunks that are left, are all that came after the reply.
  pub on_events-IsTunnel :
      (rsv : ℕ) (address : Address) (bound x : Bytes) (gs cs : List Bytes)
      → port ≤ 65535
      → IsAddress address
      → length bound ≡ 2
      → joined gs ≡ 5 ∷ 0 ∷ []
      → joined cs ≡ reply_bytes rsv address bound ++ x
      → (before after : List Bytes) × (cs ≡ before ++ after)
        × (leftover : Bytes) × (leftover ++ joined after ≡ x)
        × IsTunnel leftover
            (hello ∷ connect_request host port ∷ [])
            (on_events host port (connected ∷ map chunk gs ++ map chunk before) fresh)
  unfolding on_event awaiting greeting_with
  on_events-IsTunnel rsv address bound x gs cs k h b greet e =
      let (before, after, is, leftover, rest, t) =
        feed-reply rsv address bound x [] cs (hello ∷ connect_request host port ∷ []) h b e
          (omega arith) in
      (
        before,
        after,
        is,
        leftover,
        rest,
        rw
            (
              on_events-append (map chunk gs) (map chunk before) (greeting_with [] (hello ∷ [])),
              feed-greeting [] gs (hello ∷ []) greet (omega arith) k,
            )
            t,
      )
