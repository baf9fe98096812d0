-- ===== src/Session/Life/Reconnect.antt =====
-- What connecting again does to a recording that the loss of the connection left on.
use edu_glasses_host.Base.{
  ◌≡◌, ap, sym, subst, Bool, true, false, not, ◌==◌, if◌then◌else◌, Result, ok, err, arith,
}
use edu_glasses_host.Frame.{Frame, proto_version}
use edu_glasses_host.Payload.Reply.{parse_hello_ack}
use edu_glasses_host.Client.{Called, ClientError}
use edu_glasses_host.Client.Commands.{greet}
use edu_glasses_host.Session.{
  client_failed, bad_hello, not_opened, unsupported_version, is_connected, next_of, beside,
}
use edu_glasses_host.Session.State.{Session, on_error, map_err}
use edu_glasses_host.Session.Triple.{
  Post, Triple-bind, Triple-raise_if, Triple-modify, Triple-given, Triple-on_error, Triple-weaken,
}
use edu_glasses_host.Session.Stable.{IsStable, Keeps, Flags-IsStable}
use edu_glasses_host.Session.Life.{
  Channels, forget, new_client, greeted, client_hello, close, accept_ack, open_channels, connect,
}

client_hello-Keeps : {K : Session → Type 0} (k : IsStable K) → Keeps K client_hello
unfolding client_hello
client_hello-Keeps {K} k = record {
  runs = λ s h.
      let (a, later) = next_of s.coming in
      go (greet proto_version a.reads new_client) (greet proto_version a.reads new_client).result
        (beside a later s) (k.arrives a later s h);
}
  where
    go :
        (done : Called Frame) (r : Result ClientError Frame) (s : Session)
        → K s
        → Post (λ _. K) K (map_err client_failed r, (greeted done s).1)
    go done (ok f) s h = k.exchanges done.client _ _ s h
    go done (err e) s h = k.exchanges done.client _ _ s h

abbrev Recording : Session → Type 0
Recording s = s.recording ≡ true

open_channels-Recording : (ch : Channels) → Keeps Recording (open_channels ch)
unfolding open_channels
open_channels-Recording ch = Triple-bind (Triple-raise_if (not ch.ctrl) not_opened (λ s p. p)) λ u.
    Triple-bind (Triple-modify (λ s p. p.0)) λ v.
      Triple-bind (client_hello-Keeps (Flags-IsStable (λ r o. r ≡ true))) λ f.
        Triple-bind
          (Triple-given (map_err bad_hello (parse_hello_ack f.payload)) (λ a s p e. p) (λ s p. p))
          λ ack. Triple-bind (Triple-modify {f = accept_ack ack} (λ s p. p)) λ w.
            Triple-weaken (λ s p. p)
              (Triple-raise_if (not (ack.proto_ver == proto_version))
                (unsupported_version ack.proto_ver) (λ s p. p))
              (λ x s p. p.0)

close-idle : (s : Session) → (close s).recording ≡ false
unfolding close
close-idle s = ground arith

-- Where the connection was lost while the flag of a recording was on, connecting again leaves the
-- flag on; only where connecting fails is it off.
pub connect-still_recording :
    (ch : Channels) (s : Session)
    → s.recording ≡ true
    → is_connected s ≡ false
    → Post (λ _ t. t.recording ≡ true) (λ t. t.recording ≡ false) (connect ch s)
unfolding connect
connect-still_recording ch s h lost =
    let opened =
      Triple-on_error {S = Recording} (λ e. close) (open_channels-Recording ch)
        (λ e t r. close-idle t) in
    let taken =
      ap
        (λ (c : Bool).
          if c then (ok tt, s) else on_error (open_channels ch) (λ e. close) (forget s))
        lost in
    subst (λ r. Post {A = Unit {0}} (λ _ t. t.recording ≡ true) (λ t. t.recording ≡ false) r)
      (sym taken) (opened.runs (forget s) h)
