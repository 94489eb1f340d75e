-- ===== src/FileTransfer/Loop.antt =====
-- The events that `event_loop` of common.c in 03_file-transfer reads.
use cs594_dcn_f.Prelude.{
  ℕ, ◌≡◌, refl, Bool, true, false, Bool-cases, inl, inr, List, [], ◌∷◌, if◌then◌else◌,
}
use mathlib.Core.Path.{subst}
use cs594_dcn_f.Effects.{World, Gives, ◌>>=◌, pure, call_, test_nz}
use cs594_dcn_f.Rdma.{
  Verbs, Call, Memory, Event, EventType, addr_resolved, route_resolved, connect_request,
  established, disconnected, other_event, ack_cm_event, build_connection, build_params,
  resolve_route, connect, accept, destroy_qp, destroy_id,
}
use cs594_dcn_f.Rdma.Events.{
  is_disconnected, after_disconnected, Answers, Answers-bind, one-Answers, three-Answers, read_next,
}
use cs594_dcn_f.FileTransfer.Common.{Callbacks, dispatch, event_loop, when_set, timeout_in_ms}

-- Whether an event of this type ends the loop.
abbrev pub ends : Bool → EventType → Bool
ends exit_on_disconnect t = if is_disconnected t then exit_on_disconnect else false

-- The events that the loop leaves unread.
abbrev pub unread : Bool → List Event → List Event
unread exit_on_disconnect es = if exit_on_disconnect then after_disconnected es else []

module _ (v : Verbs) {X : Type 0} (cb : Callbacks X) where
  dispatch-Answers :
      (exit : Bool) (t : EventType) (id : ℕ) → Answers (ends exit t) (dispatch v cb exit t id)
  unfolding dispatch
  dispatch-Answers exit addr_resolved id =
      three-Answers false (build_connection v id) (when_set cb.on_pre_conn id)
        (test_nz v.answer (resolve_route id timeout_in_ms))
  dispatch-Answers exit route_resolved id =
      one-Answers false (test_nz v.answer (connect id build_params))
  dispatch-Answers exit connect_request id =
      three-Answers false (build_connection v id) (when_set cb.on_pre_conn id)
        (test_nz v.answer (accept id build_params))
  dispatch-Answers exit established id = one-Answers false (when_set cb.on_connect id)
  dispatch-Answers exit disconnected id =
      three-Answers exit (call_ v.answer (destroy_qp id)) (when_set cb.on_disconnect id)
        (call_ v.answer (destroy_id id))
  dispatch-Answers exit other_event id = λ w. tt

  unread_step :
      (exit : Bool) (e : Event) (es : List Event)
      → (if ends exit e.event then es else unread exit es) ≡ unread exit (e ∷ es)
  unread_step true e es = elim (Bool-cases (is_disconnected e.event)) [
    | inl h ↦ rw (h) refl
    | inr h ↦ rw (h) refl
  ]
  unread_step false e es = elim (Bool-cases (is_disconnected e.event)) [
    | inl h ↦ rw (h) refl
    | inr h ↦ rw (h) refl
  ]

  -- Whatever the callbacks do and the libraries answer: if the loop of the client returns while
  -- events are still to come, it has read those up to the first disconnection, that one included, and
  -- leaves the rest; the loop of the server reads on until `rdma_get_cm_event` fails.
  pub event_loop-Reads :
      (exit_on_disconnect : Bool) (es : List Event) (w : World (Memory X) Call)
      → Gives
          (event_loop v cb es exit_on_disconnect w)
          (λ left w'. left ≡ unread exit_on_disconnect es)
          (λ w'. Unit)
  unfolding event_loop
  event_loop-Reads true [] w = refl
  event_loop-Reads false [] w = refl
  event_loop-Reads exit (e ∷ es) w =
      subst (λ z. Answers z (λ w. event_loop v cb (e ∷ es) exit w)) (unread_step exit e es)
        (Answers-bind (if ends exit e.event then es else unread exit es)
          (call_ v.answer (ack_cm_event e))
          (λ u. dispatch v cb exit e.event e.id >>= λ ended.
            if ended then pure es else event_loop v cb es exit)
          (λ u.
            read_next (ends exit e.event) (dispatch v cb exit e.event e.id) es (unread exit es)
              (event_loop v cb es exit) (dispatch-Answers exit e.event e.id)
              (event_loop-Reads exit es)))
        w
