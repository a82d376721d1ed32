-- ===== src/Invariant/Preserved.antt =====
-- The invariant along whole commands.
use ft_irc_server.Client.{Client, set_pass_is_recived}
use ft_irc_server.Channel.{Channel}
use ft_irc_server.Commands.Dispatch.{dispatch_command}
use ft_irc_server.Effect.Refines.{dispatch_command-Effect}
use ft_irc_server.Effect.{
  Effect, ChannelChange, sends, does, passes, names, users, joins, creates, kicks, changes,
  with_nick, with_user,
}
use ft_irc_server.Invariant.Channels.{change-ChannelOk}
use ft_irc_server.Invariant.Commands.{
  names-UniqueNicks, change-MembersOk, change-name, drop_member-WellFormed, joiner-WellFormed,
  creator-WellFormed,
}
use ft_irc_server.Invariant.Rosters.{WellFormed-OnlySends}
use ft_irc_server.Invariant.Sessions.{pass-SessionOk, nick-SessionOk, user-SessionOk}
use ft_irc_server.Invariant.Updates.{
  UniqueNicks-modify_same, update_client-WellFormed, update_channel-WellFormed,
}
use ft_irc_server.Invariant.{WellFormed}
use ft_irc_server.Parser.{Message, param, parse}
use ft_irc_server.Prelude.{
  ℕ, ◌≡◌, refl, sym, ap, ◌∙◌, subst, true, some, Str, arith, get_elem?, get_or_of_get_elem?, modify,
}
use ft_irc_server.Server.{Server, client_at, channel_at}

change-WellFormed :
    (k : ℕ) (m : Message) (i : ℕ) (s : Server) {f : Channel → Channel}
    → ChannelChange k m s i (channel_at s i) f
    → WellFormed s
    → WellFormed (record s { channels = modify i f s.channels })
change-WellFormed k m i s {f} change w =
    update_channel-WellFormed i f s (change-name k m s i (channel_at s i) change)
      (λ ch at. change-ChannelOk k m s i ch (moved ch at))
      (λ ch at. change-MembersOk k m s i ch (moved ch at)) w
  where
    moved : (ch : Channel) → get_elem? s.channels i ≡ some ch → ChannelChange k m s i ch f
    moved ch at =
        subst (λ (c : Channel). ChannelChange k m s i c f)
          (get_or_of_get_elem? i s.channels ch _ at) change

pub Effect-WellFormed :
    (k : ℕ) (m : Message) (s t : Server) → Effect k m s t → WellFormed s → WellFormed t
Effect-WellFormed k m s t (sends h) w = WellFormed-OnlySends s t h w
Effect-WellFormed k m s t (does (passes may) h) w = WellFormed-OnlySends _ t h (
    update_client-WellFormed k (set_pass_is_recived true) s (λ c. refl) (λ c r. r)
      (λ c at. pass-SessionOk c)
      (UniqueNicks-modify_same k (set_pass_is_recived true) s.clients (λ c. refl) w.nicks) w)
Effect-WellFormed k m s t (does (names may) h) w = WellFormed-OnlySends _ t h (
    update_client-WellFormed k (with_nick (param m 0)) s (λ c. refl) (λ c r. ground arith)
      (λ c at.
        nick-SessionOk (param m 0) c (sym (ap (λ (d : Client). d.pass_recived) at) ∙ may.passed)
          may.valid)
      (names-UniqueNicks k (param m 0) s w may.free) w)
Effect-WellFormed k m s t (does (users may) h) w = WellFormed-OnlySends _ t h (
    update_client-WellFormed k (with_user (param m 0)) s (λ c. refl) (λ c r. ground arith)
      (λ c at.
        user-SessionOk (param m 0) c (sym (ap (λ (d : Client). d.pass_recived) at) ∙ may.passed))
      (UniqueNicks-modify_same k (with_user (param m 0)) s.clients (λ c. refl) w.nicks) w)
Effect-WellFormed k m s t (does (joins i may found admits) h) w =
    WellFormed-OnlySends _ t h (joiner-WellFormed k i s may.registered w)
Effect-WellFormed k m s t (does (creates may absent) h) w =
    WellFormed-OnlySends _ t h
      (creator-WellFormed k (param m 0) s may.registered may.valid absent w)
Effect-WellFormed k m s t (does (kicks i j may) h) w =
    WellFormed-OnlySends _ t h (drop_member-WellFormed (client_at s j).fd i s w)
Effect-WellFormed k m s t (does (changes i registered change) h) w =
    WellFormed-OnlySends _ t h (change-WellFormed k m i s change w)

-- Whatever line any client sends, the command keeps a well-formed server well formed.
pub dispatch_command-WellFormed :
    (k : ℕ) (line : Str) (s : Server) → WellFormed s → WellFormed (dispatch_command k line s)
dispatch_command-WellFormed k line s =
    Effect-WellFormed k (parse line) s _ (dispatch_command-Effect k line s)
