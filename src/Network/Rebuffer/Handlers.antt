-- ===== src/Network/Rebuffer/Handlers.antt =====
-- The handlers but `MODE`, one after the other.
use ft_irc_server.Channel.{is_channel_empty, remove_member, set_topic, add_invite}
use ft_irc_server.Client.{
  set_pass_is_recived, set_username, set_user_is_recived, set_registered, set_nickname,
  set_nickname_is_received,
}
use ft_irc_server.Commands.Common.{reply, complete_registration}
use ft_irc_server.Commands.Invite.{invite_handler, announce_invite, send_invite}
use ft_irc_server.Commands.Join.{
  join_handler, join_new, join_channel, add_channel, add_joiner, announce_join, enter_channel,
}
use ft_irc_server.Commands.Kick.{kick_handler, drop_member, kick_out}
use ft_irc_server.Commands.Nick.{nick_hundler, take_nick, tell_nick, welcome_nick}
use ft_irc_server.Commands.Pass.{pass_hundler}
use ft_irc_server.Commands.Privmsg.{privmsg_handler}
use ft_irc_server.Commands.Topic.{topic_handler, announce_topic, change_topic_to}
use ft_irc_server.Commands.User.{user_handler, take_user, welcome_user}
use ft_irc_server.Network.Rebuffer.{rebuffer, rebuffer_laws, update-rebuffer, rebuffer-fd}
use ft_irc_server.Parser.{Message, param}
use ft_irc_server.Prelude.{ℕ, ◌≡◌, refl, ap, ◌∙◌, true, [], Str, length, Bool-cases, inl, inr}
use ft_irc_server.Server.{Server, client_at, channel_at, update_client, update_channel}

module _ (j : ℕ) (b : Str) (k : ℕ) where
  announce_topic-rebuffer :
      (name topic : Str) (i : ℕ) (s : Server)
      → announce_topic k name topic i (rebuffer j b s)
        ≡ rebuffer j b (announce_topic k name topic i s)
  unfolding announce_topic
  announce_topic-rebuffer name topic i s = simp rebuffer_laws

  change_topic_to-rebuffer :
      (name topic : Str) (i : ℕ) (s : Server)
      → change_topic_to k name topic i (rebuffer j b s)
        ≡ rebuffer j b (change_topic_to k name topic i s)
  unfolding change_topic_to rebuffer
  change_topic_to-rebuffer name topic i s =
      announce_topic-rebuffer name topic i (update_channel i (set_topic topic) s)

  add_joiner-rebuffer :
      (fd i : ℕ) (s : Server) → add_joiner fd i (rebuffer j b s) ≡ rebuffer j b (add_joiner fd i s)
  unfolding add_joiner rebuffer
  add_joiner-rebuffer fd i s = elim (Bool-cases (is_channel_empty (channel_at s i))) [
    | inl e ↦ rw (e, add_joiner)
    | inr e ↦ rw (e, add_joiner)
  ]

  announce_join-rebuffer :
      (name : Str) (i : ℕ) (s : Server)
      → announce_join k name i (rebuffer j b s) ≡ rebuffer j b (announce_join k name i s)
  unfolding announce_join
  announce_join-rebuffer name i s = simp rebuffer_laws

  enter_channel-rebuffer :
      (name : Str) (i : ℕ) (s : Server)
      → enter_channel k name i (rebuffer j b s) ≡ rebuffer j b (enter_channel k name i s)
  unfolding enter_channel
  enter_channel-rebuffer name i s =
      simp (rebuffer_laws, add_joiner-rebuffer, announce_join-rebuffer)

  join_channel-rebuffer :
      (m : Message) (i : ℕ) (s : Server)
      → join_channel k m i (rebuffer j b s) ≡ rebuffer j b (join_channel k m i s)
  unfolding join_channel rebuffer
  join_channel-rebuffer m i s = simp (rebuffer_laws, enter_channel-rebuffer)

  join_new-rebuffer :
      (m : Message) (s : Server) → join_new k m (rebuffer j b s) ≡ rebuffer j b (join_new k m s)
  unfolding join_new rebuffer
  join_new-rebuffer m s = join_channel-rebuffer m (length s.channels) (add_channel (param m 0) s)

  tell_nick-rebuffer :
      (nick : Str) (s : Server)
      → tell_nick k nick (rebuffer j b s) ≡ rebuffer j b (tell_nick k nick s)
  unfolding tell_nick rebuffer
  tell_nick-rebuffer nick s = simp rebuffer_laws

  welcome-rebuffer : (s : Server) → reply k 1 [] (rebuffer j b s) ≡ rebuffer j b (reply k 1 [] s)
  welcome-rebuffer s = simp rebuffer_laws

  complete_registration-rebuffer :
      (s : Server)
      → complete_registration k (rebuffer j b s) ≡ rebuffer j b (complete_registration k s)
  unfolding complete_registration
  complete_registration-rebuffer s =
      ap (reply k 1 []) (update-rebuffer j b k (set_registered true) s (λ c. refl))
      ∙ welcome-rebuffer _

  welcome_nick-rebuffer :
      (s : Server) → welcome_nick k (rebuffer j b s) ≡ rebuffer j b (welcome_nick k s)
  unfolding welcome_nick rebuffer
  welcome_nick-rebuffer s = simp (rebuffer_laws, complete_registration-rebuffer)

  take_nick-rebuffer :
      (nick : Str) (s : Server)
      → take_nick k nick (rebuffer j b s) ≡ rebuffer j b (take_nick k nick s)
  unfolding take_nick
  take_nick-rebuffer nick s =
      ap (λ t. welcome_nick k (update_client k (set_nickname_is_received true) t))
        (ap (tell_nick k nick) (update-rebuffer j b k (set_nickname nick) s (λ c. refl))
          ∙ tell_nick-rebuffer nick _)
      ∙ ap (welcome_nick k) (update-rebuffer j b k (set_nickname_is_received true) _ (λ c. refl))
      ∙ welcome_nick-rebuffer _

  welcome_user-rebuffer :
      (s : Server) → welcome_user k (rebuffer j b s) ≡ rebuffer j b (welcome_user k s)
  unfolding welcome_user rebuffer
  welcome_user-rebuffer s = simp (rebuffer_laws, complete_registration-rebuffer)

  take_user-rebuffer :
      (name : Str) (s : Server)
      → take_user k name (rebuffer j b s) ≡ rebuffer j b (take_user k name s)
  unfolding take_user
  take_user-rebuffer name s =
      ap (λ t. welcome_user k (update_client k (set_user_is_recived true) t))
        (update-rebuffer j b k (set_username name) s (λ c. refl))
      ∙ ap (welcome_user k) (update-rebuffer j b k (set_user_is_recived true) _ (λ c. refl))
      ∙ welcome_user-rebuffer _

  drop_member-rebuffer :
      (fd i : ℕ) (s : Server)
      → drop_member fd i (rebuffer j b s) ≡ rebuffer j b (drop_member fd i s)
  unfolding drop_member rebuffer
  drop_member-rebuffer fd i s =
      elim (Bool-cases (is_channel_empty (channel_at (update_channel i (remove_member fd) s) i))) [
        | inl e ↦ rw (e, drop_member)
        | inr e ↦ rw (e, drop_member)
      ]

  kick_out-rebuffer :
      (m : Message) (i t : ℕ) (s : Server)
      → kick_out k m i t (rebuffer j b s) ≡ rebuffer j b (kick_out k m i t s)
  unfolding kick_out
  kick_out-rebuffer m i t s = simp (rebuffer_laws, drop_member-rebuffer)

  announce_invite-rebuffer :
      (m : Message) (t : ℕ) (s : Server)
      → announce_invite k m t (rebuffer j b s) ≡ rebuffer j b (announce_invite k m t s)
  unfolding announce_invite
  announce_invite-rebuffer m t s = simp rebuffer_laws

  send_invite-rebuffer :
      (m : Message) (t i : ℕ) (s : Server)
      → send_invite k m t i (rebuffer j b s) ≡ rebuffer j b (send_invite k m t i s)
  unfolding send_invite
  send_invite-rebuffer m t i s =
      unfold rebuffer in
      (ap (λ fd. announce_invite k m t (update_channel i (add_invite fd) (rebuffer j b s)))
          (rebuffer-fd j b t s)
        ∙ announce_invite-rebuffer m t (update_channel i (add_invite (client_at s t).fd) s))

module _ (j : ℕ) (b : Str) (k : ℕ) (m : Message) (s : Server) where
  pub pass-rebuffer : pass_hundler k m (rebuffer j b s) ≡ rebuffer j b (pass_hundler k m s)
  unfolding pass_hundler rebuffer
  pass-rebuffer =
      simp (rebuffer_laws, update-rebuffer j b k (set_pass_is_recived true) s (λ c. refl))

  pub privmsg-rebuffer : privmsg_handler k m (rebuffer j b s) ≡ rebuffer j b (privmsg_handler k m s)
  unfolding privmsg_handler rebuffer
  privmsg-rebuffer = simp rebuffer_laws

  pub topic-rebuffer : topic_handler k m (rebuffer j b s) ≡ rebuffer j b (topic_handler k m s)
  unfolding topic_handler rebuffer
  topic-rebuffer = simp (rebuffer_laws, change_topic_to-rebuffer)

  pub kick-rebuffer : kick_handler k m (rebuffer j b s) ≡ rebuffer j b (kick_handler k m s)
  unfolding kick_handler rebuffer
  kick-rebuffer = simp (rebuffer_laws, kick_out-rebuffer)

  pub invite-rebuffer : invite_handler k m (rebuffer j b s) ≡ rebuffer j b (invite_handler k m s)
  unfolding invite_handler rebuffer
  invite-rebuffer = simp (rebuffer_laws, send_invite-rebuffer)

  pub join-rebuffer : join_handler k m (rebuffer j b s) ≡ rebuffer j b (join_handler k m s)
  unfolding join_handler rebuffer
  join-rebuffer = simp (rebuffer_laws, join_channel-rebuffer, join_new-rebuffer)

  pub nick-rebuffer : nick_hundler k m (rebuffer j b s) ≡ rebuffer j b (nick_hundler k m s)
  unfolding nick_hundler rebuffer
  nick-rebuffer = simp (rebuffer_laws, take_nick-rebuffer)

  pub user-rebuffer : user_handler k m (rebuffer j b s) ≡ rebuffer j b (user_handler k m s)
  unfolding user_handler rebuffer
  user-rebuffer = simp (rebuffer_laws, take_user-rebuffer)
