-- ===== src/Effect/Roster.antt =====
-- The number of clients along the effects of a command.
use ft_irc_server.Client.{Client, set_pass_is_recived}
use ft_irc_server.Commands.Join.{add_joiner, add_channel}
use ft_irc_server.Commands.Kick.{drop_member}
use ft_irc_server.Effect.{
  Effect, sends, does, passes, names, users, joins, creates, kicks, changes, with_nick, with_user,
}
use ft_irc_server.Parser.{Message, param}
use ft_irc_server.Prelude.{
  ℕ, zero, suc, ◌≡◌, refl, ap, ◌∙◌, sym, true, List, [], ◌∷◌, map, length, modify, if_cases,
}
use ft_irc_server.Server.Quiet.{OnlySends, quiet_client}
use ft_irc_server.Server.{Server, client_at}

length-modify :
    (k : ℕ) (f : Client → Client) (cs : List Client) → length (modify k f cs) ≡ length cs
length-modify k f [] = refl
length-modify zero f (c ∷ cs) = refl
length-modify (suc k) f (c ∷ cs) = ap suc (length-modify k f cs)

length-quiet : (cs : List Client) → length (map quiet_client cs) ≡ length cs
length-quiet [] = refl
length-quiet (c ∷ cs) = ap suc (length-quiet cs)

OnlySends-length : (s t : Server) → OnlySends s t → length t.clients ≡ length s.clients
OnlySends-length s t h =
    sym (length-quiet t.clients) ∙ ap (λ (q : Server). length q.clients) h ∙ length-quiet s.clients

pub add_joiner-clients : (fd i : ℕ) (s : Server) → (add_joiner fd i s).clients ≡ s.clients
unfolding add_joiner
add_joiner-clients fd i s =
    if_cases (λ (t : Server). t.clients ≡ s.clients) _ (λ _. refl) (λ _. refl)

pub drop_member-clients : (fd i : ℕ) (s : Server) → (drop_member fd i s).clients ≡ s.clients
unfolding drop_member
drop_member-clients fd i s =
    if_cases (λ (t : Server). t.clients ≡ s.clients) _ (λ _. refl) (λ _. refl)

pub Effect-length :
    (k : ℕ) (m : Message) (s t : Server) → Effect k m s t → length t.clients ≡ length s.clients
Effect-length k m s t (sends h) = OnlySends-length s t h
Effect-length k m s t (does (passes may) h) =
    OnlySends-length _ t h ∙ length-modify k (set_pass_is_recived true) s.clients
Effect-length k m s t (does (names may) h) =
    OnlySends-length _ t h ∙ length-modify k (with_nick (param m 0)) s.clients
Effect-length k m s t (does (users may) h) =
    OnlySends-length _ t h ∙ length-modify k (with_user (param m 0)) s.clients
Effect-length k m s t (does (joins i may found admits) h) =
    OnlySends-length _ t h ∙ ap length (add_joiner-clients (client_at s k).fd i s)
Effect-length k m s t (does (creates may absent) h) =
    OnlySends-length _ t h
    ∙ ap length
        (add_joiner-clients (client_at s k).fd (length s.channels) (add_channel (param m 0) s))
Effect-length k m s t (does (kicks i j may) h) =
    OnlySends-length _ t h ∙ ap length (drop_member-clients (client_at s j).fd i s)
Effect-length k m s t (does (changes i registered change) h) = OnlySends-length _ t h
