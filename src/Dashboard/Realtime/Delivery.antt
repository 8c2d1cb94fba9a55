-- ===== src/Dashboard/Realtime/Delivery.antt =====
-- What a client receives from the room of the alerts, and what the dashboard shows of it.
use mathlib.Core.List.{append-nil}
use edge_sphere_self_hosted.Prelude.{
  ◌≡◌, refl, ap, ◌∙◌, inl, inr, List, [], ◌∷◌, ◌++◌, map, Bool, true, false, not, Option, none,
  some, String, str_eq, if◌then◌else◌, keep, any, find, find_sound, arith, eq_iff, Bool-cases,
}
use edge_sphere_self_hosted.Dashboard.Realtime.{pick_alert}
use edge_sphere_self_hosted.Dashboard.Realtime.Latest.{with_found, found_in, found_in-append}
use edge_sphere_self_hosted.Live.{
  Packet, alert_triggered, Socket, is_in, receive, join, leave, join_all, leave_all, change,
  emit_to,
}

module _ (id : String) where
  abbrev pub seen : List Socket → Option Socket
  seen sockets = find (λ socket. str_eq socket.id id) sockets

  seen-map :
      (f : Socket → Socket) (sockets : List Socket) (socket : Socket)
      → ((x : Socket) → (f x).id ≡ x.id)
      → seen sockets ≡ some socket
      → seen (map f sockets) ≡ some (f socket)
  seen-map f [] socket same e = cc
  seen-map f (x ∷ sockets) socket same e = elim (Bool-cases (str_eq x.id id)) [
    | inl here ↦
        let it : some x ≡ some socket = rw here at e in
        let this : some (f x) ≡ some (f socket) = cc in simp (same x, here) this
    | inr later ↦ simp (same x, later) (seen-map f sockets socket same (rw later at e))
  ]

  pub seen-append :
      (sockets more : List Socket) (socket : Socket)
      → seen sockets ≡ some socket
      → seen (sockets ++ more) ≡ some socket
  seen-append [] more socket e = cc
  seen-append (x ∷ sockets) more socket e = elim (Bool-cases (str_eq x.id id)) [
    | inl here ↦ simp here (rw here at e)
    | inr later ↦ simp later (seen-append sockets more socket (rw later at e))
  ]

  pub seen-keep :
      (gone : String) (sockets : List Socket) (socket : Socket)
      → str_eq id gone ≡ false
      → seen sockets ≡ some socket
      → seen (keep (λ x. not (str_eq x.id gone)) sockets) ≡ some socket
  seen-keep gone [] socket other e = cc
  seen-keep gone (x ∷ sockets) socket other e =
      let later = seen-keep gone sockets socket other in
      ground (arith, eq_iff x.id id, eq_iff x.id gone, eq_iff id gone)

  -- The client is in the room of the alerts and has received these.
  abbrev pub IsWatching : List String → Socket → Type 0
  IsWatching alerts x = (is_in "alerts" x ≡ true) × (found_in pick_alert x.inbox ≡ alerts)

  abbrev pub IsWatched : List String → List Socket → Type 0
  IsWatched alerts sockets = (x : Socket) × (seen sockets ≡ some x) × IsWatching alerts x

  map-IsWatched :
      (before after : List String) (f : Socket → Socket) (sockets : List Socket)
      → ((x : Socket) → (f x).id ≡ x.id)
      → ((x : Socket) → str_eq x.id id ≡ true → IsWatching before x → IsWatching after (f x))
      → IsWatched before sockets
      → IsWatched after (map f sockets)
  map-IsWatched before after f sockets same moves (x, found, watching) =
      let named = find_sound (λ socket. str_eq socket.id id) sockets x found in
      (f x, seen-map f sockets x same found, moves x named watching)

  receive-IsWatching :
      (alerts : List String) (packet : Packet) (x : Socket)
      → IsWatching alerts x
      → IsWatching (alerts ++ with_found (pick_alert packet) []) (receive packet x)
  unfolding receive is_in
  receive-IsWatching alerts packet x (joined, received) = (
    joined,
    found_in-append pick_alert x.inbox packet
        ∙ ap (λ before. before ++ with_found (pick_alert packet) []) received,
  )

  emit-same :
      (room : String) (packet : Packet) (x : Socket)
      → (if is_in room x then receive packet x else x).id ≡ x.id
  unfolding receive
  emit-same room packet x = elim (Bool-cases (is_in room x)) [
    | inl joined ↦ rw joined refl
    | inr outside ↦ rw outside refl
  ]

  -- An alert reaches the client.
  pub alert-IsWatched :
      (alerts : List String) (text : String) (sockets : List Socket)
      → IsWatched alerts sockets
      → IsWatched (alerts ++ text ∷ []) (emit_to "alerts" (alert_triggered text) sockets)
  unfolding emit_to pick_alert
  alert-IsWatched alerts text sockets watched =
      map-IsWatched alerts (alerts ++ text ∷ [])
        (λ x. if is_in "alerts" x then receive (alert_triggered text) x else x) sockets
        (emit-same "alerts" (alert_triggered text))
        (λ x named watching.
          rw watching.0 (receive-IsWatching alerts (alert_triggered text) x watching))
        watched

  -- Another packet is no alert.
  pub other-IsWatched :
      (alerts : List String) (room : String) (packet : Packet) (sockets : List Socket)
      → pick_alert packet ≡ none
      → IsWatched alerts sockets
      → IsWatched alerts (emit_to room packet sockets)
  unfolding emit_to
  other-IsWatched alerts room packet sockets quiet watched =
      map-IsWatched alerts alerts (λ x. if is_in room x then receive packet x else x) sockets
        (emit-same room packet)
        (λ x named watching. elim (Bool-cases (is_in room x)) [
          | inl joined ↦
              let received = receive-IsWatching alerts packet x watching in
              rw joined (rw (quiet, append-nil alerts) at received)
          | inr outside ↦ rw outside watching
        ])
        watched

  any-append :
      (p : String → Bool) (xs : List String) (room : String)
      → any p xs ≡ true
      → any p (xs ++ room ∷ []) ≡ true
  any-append p [] room h = cc
  any-append p (x ∷ xs) room h = ground (arith, any-append p xs room)

  join-IsWatching :
      (alerts : List String) (room : String) (x : Socket)
      → IsWatching alerts x
      → IsWatching alerts (join room x) × ((join room x).id ≡ x.id)
  unfolding join is_in
  join-IsWatching alerts room x (joined, received) = elim (Bool-cases (is_in room x)) [
    | inl there ↦ rw there ((joined, received), refl)
    | inr new ↦
        rw new ((any-append (λ known. str_eq known "alerts") x.rooms room joined, received), refl)
  ]

  pub join_all-IsWatching :
      (alerts rooms : List String) (x : Socket)
      → IsWatching alerts x
      → IsWatching alerts (join_all rooms x)
  unfolding join_all
  join_all-IsWatching alerts [] x watching = watching
  join_all-IsWatching alerts (room ∷ rooms) x watching =
      join_all-IsWatching alerts rooms (join room x) (join-IsWatching alerts room x watching).0

  join-same : (room : String) (x : Socket) → (join room x).id ≡ x.id
  unfolding join
  join-same room x = elim (Bool-cases (is_in room x)) [
    | inl there ↦ rw there refl
    | inr new ↦ rw new refl
  ]

  pub join_all-same : (rooms : List String) (x : Socket) → (join_all rooms x).id ≡ x.id
  unfolding join_all
  join_all-same [] x = refl
  join_all-same (room ∷ rooms) x = join_all-same rooms (join room x) ∙ join-same room x

  pub leave_all-same : (rooms : List String) (x : Socket) → (leave_all rooms x).id ≡ x.id
  unfolding leave_all leave
  leave_all-same [] x = refl
  leave_all-same (room ∷ rooms) x = leave_all-same rooms (leave room x)

  pub change-IsWatched :
      (alerts : List String) (name : String) (f : Socket → Socket) (sockets : List Socket)
      → ((x : Socket) → (f x).id ≡ x.id)
      → ((x : Socket) → str_eq name id ≡ true → IsWatching alerts x → IsWatching alerts (f x))
      → IsWatched alerts sockets
      → IsWatched alerts (change name f sockets)
  unfolding change
  change-IsWatched alerts name f sockets same moves watched =
      map-IsWatched alerts alerts (λ x. if str_eq x.id name then f x else x) sockets
        (λ x. elim (Bool-cases (str_eq x.id name)) [
          | inl it ↦ rw it (same x)
          | inr other ↦ rw other refl
        ])
        (λ x named watching. elim (Bool-cases (str_eq x.id name)) [
          | inl it ↦
              let this : str_eq name id ≡ true = ground (arith, eq_iff x.id name, eq_iff x.id id) in
              rw it (moves x this watching)
          | inr other ↦ rw other watching
        ])
        watched
