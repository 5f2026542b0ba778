-- ===== src/System/Fatal.antt =====
-- siffleux/src/server/server.rs and siffleux/src/common/frames/v1.rs: what a bad first frame does to a server.
use siffleux.Prelude.{
  ℕ, ◌≡◌, ◌≤◌, refl, Bool, true, false, if◌then◌else◌, Option, none, some, List, ◌∷◌, length, ap,
  ◌∙◌,
}
use siffleux.Error.{Result, ok, err, panic}
use siffleux.Frames.{FrameV1, decode}
use siffleux.Frames.Partial.{HasPayload, decode-short_header}
use siffleux.ByteCounter.{Counters}
use siffleux.Ingress.Boxed.{BoxedIngress, boxed_ingress}
use siffleux.Protocol.{AuthEvent}
use siffleux.Server.{Server}
use siffleux.Server.Auth.{handle_server_protocol_v1_auth}
use siffleux.Server.Connection.{Meeting, handle_connection, serve_tunnel}
use siffleux.System.{Happening, connected, World, step, panics, live_run}

-- The event that a framed stream yields for what the decoder makes of its buffer, which is none while it waits.
abbrev pub yielded : Result (Option FrameV1) → Option AuthEvent
yielded (ok none) = none
yielded (ok (some f)) = some (AuthEvent.frame (ok f))
yielded (err e) = some (AuthEvent.frame (err e))
yielded panic = some (AuthEvent.frame panic)

auth_panics :
    (s : Server BoxedIngress) (connection : ℕ) (m : Meeting) (cs : Counters)
    → m.event ≡ AuthEvent.frame panic
    → (handle_server_protocol_v1_auth s connection m.tunnel_id m.written cs m.event).result ≡ panic
unfolding handle_server_protocol_v1_auth
auth_panics s connection m cs e = rw e refl

-- The task of such a connection panics, and the registry is as it was.
fatal :
    (s : Server BoxedIngress) (cs : Counters) (m : Meeting) (connection : ℕ)
    → m.incoming ≡ ok connection
    → m.accepted ≡ ok tt
    → m.event ≡ AuthEvent.frame panic
    → ((handle_connection s cs m).panics ≡ true) × ((handle_connection s cs m).server ≡ s)
unfolding handle_connection
fatal s cs m connection hi ha he =
    let h = auth_panics s connection m cs he in
    (
      rw (hi, handle_connection, ha, h, serve_tunnel) refl,
      rw (hi, handle_connection, ha, h, serve_tunnel) refl,
    )

after_panic :
    (aborts : Bool) (e : Happening) (past : List Happening) (w now : World)
    → live_run aborts past w ≡ some now
    → panics e now ≡ true
    → live_run aborts (e ∷ past) w ≡ (if aborts then none else some (step e now))
unfolding live_run
after_panic true e past w now lives dies = rw (lives, live_run, dies) refl
after_panic false e past w now lives dies = rw (lives, live_run) refl

-- One connection that needs no key can end a running server: when the first bytes that have come of its first frame are
-- the type of a frame with a payload and at most one byte more, its task panics. In a build that aborts on panics the
-- process has then ended; in any other it runs on, with the registry that it had.
pub bad_frame_ends :
    (aborts : Bool) (past : List Happening) (w now : World) (m : Meeting) (connection t : ℕ)
    (src : List ℕ)
    → HasPayload t
    → length src ≤ 1
    → m.incoming ≡ ok connection
    → m.accepted ≡ ok tt
    → some m.event ≡ yielded (decode (t ∷ src)).0
    → live_run aborts past w ≡ some now
    → (live_run aborts (connected m ∷ past) w
        ≡ (if aborts then none else some (step (connected m) now)))
      × ((step (connected m) now).0 ≡ now.0)
unfolding step panics
bad_frame_ends aborts past w (s, cs) m connection t src payload short hi ha shown lives =
    let e = shown ∙ ap yielded (decode-short_header t src payload short) in
    let event : m.event ≡ AuthEvent.frame panic = cc e in
    let (dies, stays) = fatal s cs m connection hi ha event in
    (after_panic aborts (connected m) past w (s, cs) lives dies, stays)
