-- ===== src/Call/Events.antt =====
-- internal/calls/call.go: histories of what an assistant does and meets.
use tg.Base.{
  ◌≡◌, sym, subst, List, [], ◌∷◌, ◌++◌, Option, none, some, Bool, false, ◌&&◌, ℤ, int_eq, nat_eq,
  lookup, contains, Distinct, Distinct-snoc, arith, Option-cases, Result-cases, Bool-cases, inl,
  inr, is_negative,
}
use tg.Call.State.{
  Media, AssistantAccount, register_wait, get_input_group_call, convert_group_call_id, Peer,
  call_native, starts_presentation,
}
use tg.Call.Connect.{
  Replies, Outcome, connect_call, start_presentation, end_presentation, join_presentation,
  stream_connected, start_call_stream, stop_assistant_call, is_rtc,
}
use tg.Call.Updates.{
  ConnectionState, GroupCall, Participant, Status, on_connection_change, on_group_call, reconnect,
  note_muted, note_unmuted, in_stream, on_self, on_group_call_participants, find_self, update_call,
}
use tg.Call.Settled.{
  IsSettled, std_remove-Distinct, get_input_group_call-IsLike, wait-IsSettled,
  connect_call-IsSettled,
}

-- What start_presentation leaves: the same but for the chat among the presentations.
start_presentation-fields :
    (r : Replies) (chat : ℤ) (s : AssistantAccount)
    → Distinct s.presentations
    → contains s.presentations chat ≡ false
    → let t = (start_presentation r chat s).0 in
      Distinct t.presentations
      × (t.muted_by_admin ≡ s.muted_by_admin)
      × (t.wait_connect ≡ s.wait_connect)
unfolding start_presentation
start_presentation-fields r chat s d h =
    let s' = call_native (starts_presentation chat) s in
    let (a, b, c) = get_input_group_call-IsLike r.resolve_peer r.full_chat chat s' in
    let g = (get_input_group_call r.resolve_peer r.full_chat chat s').0 in
    let same : Distinct g.presentations = subst Distinct (sym a) d in
    let more : Distinct (g.presentations ++ chat ∷ []) =
      subst (λ (xs : List ℤ). Distinct (xs ++ chat ∷ [])) (sym a)
        (Distinct-snoc s.presentations chat d h) in
    (ground arith, ground arith, ground arith)

end_presentation-IsSettled :
    (r : Replies) (chat : ℤ) (s : AssistantAccount)
    → IsSettled s
    → IsSettled (end_presentation r chat s).0
unfolding end_presentation
end_presentation-IsSettled r chat s h =
    let less = std_remove-Distinct s.presentations chat h.presented in
    record {
      presented = ground arith;
      muted = ground arith;
      unwaited = λ j. ground (arith, h.unwaited j);
    }

join_presentation-IsSettled :
    (r : Replies) (chat : ℤ) (join : Bool) (s : AssistantAccount)
    → IsSettled s
    → IsSettled (join_presentation r chat join s).0
unfolding join_presentation
join_presentation-IsSettled r chat join s h = elim (Result-cases r.connection_mode) [
  | inr (x, e) ↦ rw (e, join_presentation) h
  | inl (mode, e) ↦ elim (Bool-cases (is_rtc mode)) [
    | inr f ↦ rw (e, join_presentation, f) h
    | inl f ↦ elim (Bool-cases join) [
      | inr g ↦ rw (e, join_presentation, f, g) (end_presentation-IsSettled r chat s h)
      | inl g ↦ elim (Bool-cases (contains s.presentations chat)) [
        | inl k ↦ rw (e, join_presentation, f, g, k) h
        | inr k ↦
            let s' = register_wait chat s in
            let t = (start_presentation r chat s').0 in
            let (a, b, c) =
              start_presentation-fields r chat s' (unfold register_wait in h.presented)
                (unfold register_wait in k) in
            rw (e, join_presentation, f, g, k)
              (wait-IsSettled chat s t h a
                (subst Distinct (sym b) (unfold register_wait in h.muted)) c)
      ]
    ]
  ]
]

stream_connected-IsSettled :
    (r : Replies) (chat : ℤ) (media : Media) (c : Outcome)
    → IsSettled c.0
    → IsSettled (stream_connected r chat media c).0
unfolding stream_connected
stream_connected-IsSettled r chat media (s, some e) h = h
stream_connected-IsSettled r chat media (s, none) h = elim (Bool-cases (is_negative chat)) [
  | inl n ↦ rw (n, stream_connected) (join_presentation-IsSettled r chat media.has_screen s h)
  | inr n ↦ rw (n, stream_connected) h
]

start_call_stream-IsSettled :
    (r : Replies) (chat : ℤ) (media : Media) (s : AssistantAccount)
    → IsSettled s
    → IsSettled (start_call_stream r chat media s).0
unfolding start_call_stream
start_call_stream-IsSettled r chat media s h = elim (Result-cases r.calls) [
  | inr (x, e) ↦ rw (e, start_call_stream) h
  | inl (calls, e) ↦ elim (Bool-cases (contains calls chat)) [
    | inl f ↦
        rw (e, start_call_stream, f)
          (record { presented = h.presented; muted = h.muted; unwaited = h.unwaited })
    | inr f ↦
        rw (e, start_call_stream, f)
          (stream_connected-IsSettled r chat media (connect_call r chat media [] s)
            (connect_call-IsSettled r chat media [] s h))
  ]
]

stop_assistant_call-IsSettled :
    (r : Replies) (chat : ℤ) (is_banned : Bool) (s : AssistantAccount)
    → IsSettled s
    → IsSettled (stop_assistant_call r chat is_banned s).0
unfolding stop_assistant_call
stop_assistant_call-IsSettled r chat is_banned s h =
    let less = std_remove-Distinct s.presentations chat h.presented in
    record {
      presented = ground arith;
      muted = ground arith;
      unwaited = λ j. ground (arith, h.unwaited j);
    }

on_connection_change-IsSettled :
    (chat : ℤ) (state : ConnectionState) (s : AssistantAccount)
    → IsSettled s
    → IsSettled (on_connection_change chat state s)
unfolding on_connection_change
on_connection_change-IsSettled chat state s h = rw (h.unwaited chat, on_connection_change) h

on_group_call-IsSettled :
    (peer : Option Peer) (call : Option GroupCall) (s : AssistantAccount)
    → IsSettled s
    → IsSettled (on_group_call peer call s)
unfolding on_group_call update_call
on_group_call-IsSettled peer none s h = h
on_group_call-IsSettled peer (some call) s h = record {
  presented = ground arith;
  muted = ground arith;
  unwaited = λ j. ground (arith, h.unwaited j);
}

reconnect-IsSettled :
    (r : Replies) (chat : ℤ) (s : AssistantAccount) → IsSettled s → IsSettled (reconnect r chat s)
unfolding reconnect
reconnect-IsSettled r chat s h = elim (Option-cases (lookup chat s.pending_connections)) [
  | inl e ↦ rw (e, reconnect) h
  | inr (p, e) ↦
      let k = connect_call-IsSettled r chat p.media_desc p.payload s h in
      rw (e, reconnect) (record { presented = k.presented; muted = k.muted; unwaited = k.unwaited })
]

on_self-IsSettled :
    (r : Replies) (st : Status) (chat : ℤ) (p : Participant) (s : AssistantAccount)
    → IsSettled s
    → IsSettled (on_self r st chat p s)
unfolding on_self
on_self-IsSettled r st chat p s h = elim (Bool-cases (in_stream st.mode && p.can_self_unmute)) [
  | inl e ↦ rw (e, on_self) (reconnect-IsSettled r chat s h)
  | inr e ↦
      let less = std_remove-Distinct s.muted_by_admin chat h.muted in
      let more = Distinct-snoc s.muted_by_admin chat h.muted in
      rw (e, on_self)
        (unfold note_muted note_unmuted in
          record {
            presented = ground arith;
            muted = ground (arith, more);
            unwaited = λ j. ground (arith, h.unwaited j);
          })
]

on_group_call_participants-IsSettled :
    (r : Replies) (st : Status) (call : Option ℤ) (ps : List Participant) (s : AssistantAccount)
    → IsSettled s
    → IsSettled (on_group_call_participants r st call ps s)
unfolding on_group_call_participants
on_group_call_participants-IsSettled r st none ps s h = h
on_group_call_participants-IsSettled r st (some call) ps s h =
    elim (Result-cases (convert_group_call_id call s)) [
      | inr (x, e) ↦ rw (e, on_group_call_participants) h
      | inl (chat, e) ↦ elim (Option-cases s.self_id) [
        | inl f ↦ rw (e, on_group_call_participants, f) h
        | inr (self, f) ↦ elim (Option-cases (find_self self ps)) [
          | inl g ↦ rw (e, on_group_call_participants, f, g) h
          | inr (p, g) ↦
              rw (e, on_group_call_participants, f, g) (on_self-IsSettled r st chat p s h)
        ]
      ]
    ]

-- What an assistant does or meets, with the answers that it gets.
pub data Event : Type 0 where
  streams : Replies → ℤ → Media → Event
  stops_call : Replies → ℤ → Bool → Event
  changes : ℤ → ConnectionState → Event
  updates_call : Option Peer → Option GroupCall → Event
  updates_participants : Replies → Status → Option ℤ → List Participant → Event

unfoldable pub step : Event → AssistantAccount → AssistantAccount
step (streams r chat media) s = (start_call_stream r chat media s).0
step (stops_call r chat is_banned) s = (stop_assistant_call r chat is_banned s).0
step (changes chat state) s = on_connection_change chat state s
step (updates_call peer call) s = on_group_call peer call s
step (updates_participants r st call ps) s = on_group_call_participants r st call ps s

unfoldable pub run : List Event → AssistantAccount → AssistantAccount
unfolding step
run [] s = s
run (e ∷ events) s = run events (step e s)

step-IsSettled : (e : Event) (s : AssistantAccount) → IsSettled s → IsSettled (step e s)
unfolding step
step-IsSettled (streams r chat media) s h = start_call_stream-IsSettled r chat media s h
step-IsSettled (stops_call r chat is_banned) s h =
    stop_assistant_call-IsSettled r chat is_banned s h
step-IsSettled (changes chat state) s h = on_connection_change-IsSettled chat state s h
step-IsSettled (updates_call peer call) s h = on_group_call-IsSettled peer call s h
step-IsSettled (updates_participants r st call ps) s h =
    on_group_call_participants-IsSettled r st call ps s h

-- From a state in which no chat stands twice among the presentations or among the chats where an
-- administrator muted the assistant, and in which nobody waits, whatever streams, stops, changes
-- and updates come one after the other, with whatever answers, the state is such a one again.
pub run-IsSettled :
    (events : List Event) (s : AssistantAccount) → IsSettled s → IsSettled (run events s)
unfolding run
run-IsSettled [] s h = h
run-IsSettled (e ∷ events) s h = run-IsSettled events (step e s) (step-IsSettled e s h)
