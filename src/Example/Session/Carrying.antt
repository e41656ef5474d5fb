-- ===== src/Example/Session/Carrying.antt =====
-- The echoing session whose writer writes each message as one frame or datagram.
use gopher_socks.Common.{
  ◌≡◌, ◌≢◌, ℕ, sym, ap, ◌∙◌, List, [], ◌++◌, Option, none, some, false, append_assoc,
}
use gopher_socks.Common.Int.{ℤ}
use gopher_socks.Errors.{Error}
use gopher_socks.Listener.Config.{ServerConfig}
use gopher_socks.Listener.Server.{SessionRef}
use gopher_socks.Listener.Session.{Session, new_session}
use gopher_socks.Listener.Session.Steps.{State}
use gopher_socks.Listener.Session.Delivery.{IsFresh}
use gopher_socks.Listener.Session.Feed.{IsEnded}
use gopher_socks.Listener.Session.Feeding.{in_hand, ReachFeed-holds}
use gopher_socks.Listener.Session.Messages as Messages
use gopher_socks.Listener.Session.Messages.{ReachCarried, IsWriter, new_session-IsFresh}
use gopher_socks.Example.Session as Inner
use gopher_socks.Example.Session.{Echo, EchoStep, ReachEcho, write_batch, write_error}
use gopher_socks.Example.Session.Parts.{Moves, stays, moves, ReachEcho-Parts}
use gopher_socks.Example.Session.Passing.{with_handler, ReachEcho-Passed}

pub front_trans :
    (xs a b : List (List ℕ)) {ys zs : List (List ℕ)}
    → xs ++ a ≡ ys
    → ys ++ b ≡ zs
    → xs ++ (a ++ b) ≡ zs
front_trans xs a b e f = sym (append_assoc xs a b) ∙ ap (λ l. l ++ b) e ∙ f

module _ {Env : Type 0} (write : Env → List (List ℕ) → List (List ℕ) × Option Error) where
  -- A session has come to this by its own steps, and these messages have gone out on its connection.
  pub record Carrying (e : Echo) (wire : List (List ℕ)) : Type 0 where
    session : Session
    fresh : IsFresh session
    ended : IsEnded session
    echo : ReachEcho session e
    carried : ReachCarried write session (record { state = e.state; wire = wire })

  pub new_session-Carrying :
      (parent : Option Error) (ref : SessionRef) (cfg : ServerConfig) (now : ℤ)
      → Carrying (Inner.serving (new_session parent ref cfg now)) []
  unfolding new_session
  new_session-Carrying parent ref cfg now = record {
    session = new_session parent ref cfg now;
    fresh = new_session-IsFresh parent ref cfg now;
    ended = λ h. cc;
    echo = Inner.begins;
    carried = Messages.connect;
  }

  Moves-ReachCarried :
      {s : Session} {t u : State} {wire : List (List ℕ)}
      → Moves t u
      → ReachCarried write s (record { state = t; wire = wire })
      → ReachCarried write s (record { state = u; wire = wire })
  Moves-ReachCarried stays r = r
  Moves-ReachCarried (moves step quiet) r = Messages.goes_on r (Messages.elsewhere step quiet)

  -- A step in which nothing is written.
  pub Moves-Carrying :
      {e f : Echo} {wire : List (List ℕ)}
      → EchoStep e f
      → Moves e.state f.state
      → Carrying e wire
      → Carrying f wire
  Moves-Carrying step m p = record {
    session = p.session;
    fresh = p.fresh;
    ended = p.ended;
    echo = Inner.goes_on p.echo step;
    carried = Moves-ReachCarried m p.carried;
  }

  pub write_batch-Carrying :
      {e : Echo} {wire : List (List ℕ)} (env : Env)
      → e.state.batch ≢ []
      → e.state.done ≡ false
      → (write env e.state.batch).1 ≡ none
      → Carrying e wire
      → Carrying (write_batch e) (wire ++ (write env e.state.batch).0)
  write_batch-Carrying env busy alive good p = record {
    session = p.session;
    fresh = p.fresh;
    ended = p.ended;
    echo = Inner.goes_on p.echo (Inner.writes busy alive);
    carried = Messages.goes_on p.carried (Messages.written env busy alive good);
  }

  pub write_error-Carrying :
      {e : Echo} {wire : List (List ℕ)} (env : Env) (x : Error)
      → e.state.batch ≢ []
      → e.state.done ≡ false
      → (write env e.state.batch).1 ≡ some x
      → Carrying e wire
      → Carrying (write_error x e) (wire ++ (write env e.state.batch).0)
  write_error-Carrying env x busy alive bad p = record {
    session = p.session;
    fresh = p.fresh;
    ended = p.ended;
    echo = Inner.goes_on p.echo (Inner.write_fails x busy alive);
    carried = Messages.goes_on p.carried (Messages.lost env x busy alive bad);
  }

  -- What has gone out is the first of what was read.
  pub Carrying-front :
      (e : Echo) (wire : List (List ℕ))
      → IsWriter write
      → Carrying e wire
      → (later : List (List ℕ)) × (wire ++ later ≡ e.feed.read)
  Carrying-front e wire law p =
      let carried = Messages.ReachCarried-Carries write p.session _ p.fresh law p.carried in
      let fed = ReachFeed-holds p.session e.feed p.ended (ReachEcho-Parts p.echo).fed in
      let pumped = e.feed.channel ++ in_hand e.feed.pump in
      let accepted =
        front_trans e.state.accepted (with_handler e.handler) pumped (ReachEcho-Passed p.echo)
          fed.in_order in
      (
        carried.later ++ (with_handler e.handler ++ pumped),
        front_trans wire carried.later _ carried.first_in_order accepted,
      )
