-- ===== src/Call/Connect.antt =====
-- internal/calls/call.go: joining a group call and leaving it.
use tg.Base.{
  List, [], ◌∷◌, ◌++◌, Option, none, some, Bool, true, false, not, ◌&&◌, Text, bytes, ℤ,
  is_negative, if◌then◌else◌, int_eq, lookup, insert, delete, contains, is_blank, has_part, Result,
  ok, err,
}
use tg.Call.State.{
  InputGroupCall, Media, PendingConnection, creates, sets_sources, connects, stops,
  starts_presentation, connects_presentation, stops_presentation, AssistantAccount, std_remove,
  call_native, register_wait, forget_wait, InputPeer, get_input_group_call,
}

pub data ConnectionMode : Type 0 where
  rtc_connection stream_connection unknown_mode : ConnectionMode

-- How a wait for the connection ends: a value from the channel, the context, or the clock.
pub data Wait : Type 0 where
  received : Option Text → Wait
  cancelled : Text → Wait
  timed_out : Wait

-- What the media library and the Telegram client answer.
pub record Replies : Type 0 where
  pub calls : Result Text (List ℤ)
  pub create_call : Result Text Text
  pub set_stream_sources : Option Text
  pub resolve_peer : Result Text InputPeer
  pub full_chat : Result Text (Option InputGroupCall)
  pub join_group_call : Option Text
  pub connect : Option Text
  pub connection_mode : Result Text ConnectionMode
  pub wait : Wait
  pub init_presentation : Result Text Text
  pub join_presentation_call : Option Text
  pub connect_presentation : Option Text
  pub wait_presentation : Wait
  pub stop_presentation : Option Text
  pub leave_presentation : Option Text
  pub stop : Option Text
  pub leave_group_call : Option Text

abbrev pub Outcome : Type 0
Outcome = AssistantAccount × Option Text

abbrev pub connection_timeout : Text
connection_timeout = bytes "connection timeout"

abbrev pub presentation_timeout : Text
presentation_timeout = bytes "presentation connection timeout"

abbrev pub waited : Text → Wait → Option Text
waited timeout (received e) = e
waited timeout (cancelled e) = some e
waited timeout timed_out = some timeout

abbrev pub is_stream : ConnectionMode → Bool
is_stream stream_connection = true
is_stream _ = false

abbrev pub is_rtc : ConnectionMode → Bool
is_rtc rtc_connection = true
is_rtc _ = false

-- The first half of connectCall for a group: the media library has a call with its sources, and the
-- call on Telegram's side is known. Each failure stops the call in the media library.
unfoldable pub create_params :
    Replies → ℤ → Text → AssistantAccount → AssistantAccount × Result Text Text
create_params r chat payload s =
    if is_blank payload
    then (elim r.create_call [
      | err e ↦ (call_native (stops chat) (call_native (creates chat) s), err e)
      | ok payload' ↦ (call_native (creates chat) s, ok payload')
    ])
    else (s, ok payload)

unfoldable pub prepare_call :
    Replies → ℤ → Text → AssistantAccount → AssistantAccount × Result Text Text
unfolding create_params
prepare_call r chat payload s =
    let (s', made) = create_params r chat payload s in
    elim made [
      | err e ↦ (s', err e)
      | ok params ↦
          let s1 = call_native (sets_sources chat) s' in
          elim r.set_stream_sources [
            | some e ↦ (call_native (stops chat) s1, err e)
            | none ↦
                let (s2, call) = get_input_group_call r.resolve_peer r.full_chat chat s1 in
                elim call [ err e ↦ (call_native (stops chat) s2, err e) | ok c ↦ (s2, ok params) ]
          ]
    ]

-- The second half: the assistant joins the call and waits for the connection.
unfoldable pub enter_call : Replies → ℤ → Media → Text → AssistantAccount → Outcome
enter_call r chat media params s = elim r.join_group_call [
  | some e ↦ (s, some e)
  | none ↦
      let s' = call_native (connects chat) s in
      elim r.connect [
        | some e ↦ (s', some e)
        | none ↦ elim r.connection_mode [
          | err e ↦ (s', some e)
          | ok mode ↦
              let pending : PendingConnection = record { media_desc = media; payload = params } in
              (
                if is_stream mode && not (is_blank params)
                    then record s' {
                      pending_connections = insert chat pending s'.pending_connections;
                    }
                    else s',
                waited connection_timeout r.wait,
              )
        ]
      ]
]

-- connectCall without its deferred function.
unfoldable pub connect_group : Replies → ℤ → Media → Text → AssistantAccount → Outcome
unfolding prepare_call enter_call
connect_group r chat media payload s =
    if is_negative chat
    then (elim s.self_id [
      | none ↦ (s, some (bytes "assistant is not ready"))
      | some self ↦
          let (s', ready) = prepare_call r chat payload s in
          elim ready [ err e ↦ (s', some e) | ok params ↦ enter_call r chat media params s' ]
    ])
    else (s, some (bytes "p2p is not supported"))

unfoldable pub connect_call : Replies → ℤ → Media → Text → AssistantAccount → Outcome
unfolding connect_group register_wait forget_wait
connect_call r chat media payload s =
    let (s', failed) = connect_group r chat media payload (register_wait chat s) in
    (forget_wait chat s', failed)

-- joinPresentation with `join`, once the wait is registered, without the deferred function.
unfoldable pub start_presentation : Replies → ℤ → AssistantAccount → Outcome
start_presentation r chat s =
    let s' = call_native (starts_presentation chat) s in
    elim r.init_presentation [
      | err e ↦ (s', some e)
      | ok params ↦
          let (s1, call) = get_input_group_call r.resolve_peer r.full_chat chat s' in
          elim call [
            | err e ↦ (s1, some e)
            | ok c ↦ elim r.join_presentation_call [
              | some e ↦ (s1, some e)
              | none ↦
                  let s2 = call_native (connects_presentation chat) s1 in
                  elim r.connect_presentation [
                    | some e ↦ (s2, some e)
                    | none ↦ elim (waited presentation_timeout r.wait_presentation) [
                      | some e ↦ (s2, some e)
                      | none ↦ (record s2 { presentations = s2.presentations ++ chat ∷ [] }, none)
                    ]
                  ]
            ]
          ]
    ]

-- joinPresentation without `join`.
unfoldable pub end_presentation : Replies → ℤ → AssistantAccount → Outcome
unfolding std_remove
end_presentation r chat s =
    if contains s.presentations chat
    then (let s' =
          call_native (stops_presentation chat)
            (record s { presentations = std_remove s.presentations chat }) in
        elim r.stop_presentation [
          | some e ↦ (s', some e)
          | none ↦ elim (lookup chat s'.input_group_calls) [
            | none ↦ (s', none)
            | some none ↦ (s', none)
            | some (some call) ↦ (s', r.leave_presentation)
          ]
        ])
    else (s, none)

unfoldable pub join_presentation : Replies → ℤ → Bool → AssistantAccount → Outcome
unfolding start_presentation end_presentation register_wait forget_wait
join_presentation r chat join s = elim r.connection_mode [
  | err e ↦ (s, some e)
  | ok mode ↦
      if is_rtc mode
      then (if join
          then (if contains s.presentations chat
              then (s, none)
              else (let (s', failed) = start_presentation r chat (register_wait chat s) in
                  (forget_wait chat s', failed)))
          else end_presentation r chat s)
      else (s, none)
]

-- startCallStream once the call was connected, or not.
unfoldable pub stream_connected : Replies → ℤ → Media → Outcome → Outcome
unfolding join_presentation
stream_connected r chat media (s, some e) = (s, some e)
stream_connected r chat media (s, none) =
    if is_negative chat then join_presentation r chat media.has_screen s else (s, none)

unfoldable pub start_call_stream : Replies → ℤ → Media → AssistantAccount → Outcome
unfolding connect_call stream_connected
start_call_stream r chat media s = elim r.calls [
  | err e ↦ (s, some e)
  | ok calls ↦
      if contains calls chat
      then (call_native (sets_sources chat) s, r.set_stream_sources)
      else stream_connected r chat media (connect_call r chat media [] s)
]

unfoldable pub stop_assistant_call : Replies → ℤ → Bool → AssistantAccount → Outcome
unfolding std_remove
stop_assistant_call r chat is_banned s =
    let s' = call_native (stops chat) (record s {
      presentations = std_remove s.presentations chat;
      pending_connections = delete chat s.pending_connections;
    }) in
    let left : Outcome = elim (lookup chat s.input_group_calls) [
      | none ↦ (s', none)
      | some none ↦ (s', none)
      | some (some call) ↦ (s', if is_banned then none else r.leave_group_call)
    ] in
    elim r.stop [
      | none ↦ left
      | some e ↦ if has_part e (bytes "not found") then left else (s', some e)
    ]
