-- ===== src/Effect/Guarantees.antt =====
-- What a command may do to the channels and to other clients, read off its effect.
use ft_irc_server.Client.{Client, new_client, set_pass_is_recived}
use ft_irc_server.Commands.Dispatch.{dispatch_command}
use ft_irc_server.Commands.Join.{add_channel}
use ft_irc_server.Effect.Refines.{dispatch_command-Effect}
use ft_irc_server.Effect.Roster.{add_joiner-clients, drop_member-clients}
use ft_irc_server.Effect.{
  Effect, sends, does, passes, names, users, joins, creates, kicks, changes, with_nick, with_user,
}
use ft_irc_server.Parser.{Message, param, parse}
use ft_irc_server.Prelude.{
  ℕ, zero, suc, ◌≡◌, ◌≢◌, refl, ap, ◌∙◌, true, false, List, [], ◌∷◌, Str, arith, length, modify,
  get_or,
}
use ft_irc_server.Server.Quiet.{OnlySends, quiet_client, OnlySends-client_at}
use ft_irc_server.Server.{Server, client_at}

Effect-unregistered :
    (k : ℕ) (m : Message) (s t : Server)
    → Effect k m s t
    → (client_at s k).registered ≡ false
    → t.channels ≡ s.channels
Effect-unregistered k m s t (sends h) new = ap (λ (q : Server). q.channels) h
Effect-unregistered k m s t (does (passes may) h) new = ap (λ (q : Server). q.channels) h
Effect-unregistered k m s t (does (names may) h) new = ap (λ (q : Server). q.channels) h
Effect-unregistered k m s t (does (users may) h) new = ap (λ (q : Server). q.channels) h
Effect-unregistered k m s t (does (joins i may found admits) h) new = ground arith
Effect-unregistered k m s t (does (creates may absent) h) new = ground arith
Effect-unregistered k m s t (does (kicks i j may) h) new = ground arith
Effect-unregistered k m s t (does (changes i registered change) h) new = ground arith

-- A client that is not registered yet changes no channel, whatever line it sends.
pub dispatch_command-unregistered :
    (k : ℕ) (line : Str) (s : Server)
    → (client_at s k).registered ≡ false
    → (dispatch_command k line s).channels ≡ s.channels
dispatch_command-unregistered k line s =
    Effect-unregistered k (parse line) s _ (dispatch_command-Effect k line s)

get_or-modify_other :
    (j k : ℕ) (f : Client → Client) (cs : List Client) (d : Client)
    → j ≢ k
    → get_or (modify k f cs) j d ≡ get_or cs j d
get_or-modify_other j k f [] d other = refl
get_or-modify_other zero zero f (c ∷ cs) d other = ground arith
get_or-modify_other (suc j) zero f (c ∷ cs) d other = refl
get_or-modify_other zero (suc k) f (c ∷ cs) d other = refl
get_or-modify_other (suc j) (suc k) f (c ∷ cs) d other =
    get_or-modify_other j k f cs d (λ e. other (ap suc e))

client_at-same :
    (j : ℕ) (s t u : Server)
    → OnlySends t u
    → client_at t j ≡ client_at s j
    → quiet_client (client_at u j) ≡ quiet_client (client_at s j)
client_at-same j s t u h same = OnlySends-client_at t u j h ∙ ap quiet_client same

Effect-others :
    (j k : ℕ) (m : Message) (s t : Server)
    → Effect k m s t
    → j ≢ k
    → quiet_client (client_at t j) ≡ quiet_client (client_at s j)
Effect-others j k m s t (sends h) other = client_at-same j s s t h refl
Effect-others j k m s t (does (passes may) h) other =
    client_at-same j s _ t h
      (get_or-modify_other j k (set_pass_is_recived true) s.clients (new_client 0) other)
Effect-others j k m s t (does (names may) h) other =
    client_at-same j s _ t h
      (get_or-modify_other j k (with_nick (param m 0)) s.clients (new_client 0) other)
Effect-others j k m s t (does (users may) h) other =
    client_at-same j s _ t h
      (get_or-modify_other j k (with_user (param m 0)) s.clients (new_client 0) other)
Effect-others j k m s t (does (joins i may found admits) h) other =
    client_at-same j s _ t h
      (ap (λ cs. get_or cs j (new_client 0)) (add_joiner-clients (client_at s k).fd i s))
Effect-others j k m s t (does (creates may absent) h) other = client_at-same j s _ t h (
    ap (λ cs. get_or cs j (new_client 0))
      (add_joiner-clients (client_at s k).fd (length s.channels) (add_channel (param m 0) s)))
Effect-others j k m s t (does (kicks i l may) h) other =
    client_at-same j s _ t h
      (ap (λ cs. get_or cs j (new_client 0)) (drop_member-clients (client_at s l).fd i s))
Effect-others j k m s t (does (changes i registered change) h) other = client_at-same j s _ t h refl

-- A command of one client changes nothing of another client but its send buffer.
pub dispatch_command-others :
    (j k : ℕ) (line : Str) (s : Server)
    → j ≢ k
    → quiet_client (client_at (dispatch_command k line s) j) ≡ quiet_client (client_at s j)
dispatch_command-others j k line s =
    Effect-others j k (parse line) s _ (dispatch_command-Effect k line s)
