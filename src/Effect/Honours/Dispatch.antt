-- ===== src/Effect/Honours/Dispatch.antt =====
-- srcs/commands/CommandDispatcher.cpp for a message that calls a command by its name.
use ft_irc_server.Commands.Dispatch.{dispatch_message, toupper}
use ft_irc_server.Commands.Invite.{invite_handler}
use ft_irc_server.Commands.Join.{join_handler}
use ft_irc_server.Commands.Kick.{kick_handler}
use ft_irc_server.Commands.Modes.{modes}
use ft_irc_server.Commands.Nick.{nick_hundler}
use ft_irc_server.Commands.Pass.{pass_hundler}
use ft_irc_server.Commands.Topic.{topic_handler}
use ft_irc_server.Commands.User.{user_handler}
use ft_irc_server.Effect.{Calls}
use ft_irc_server.Parser.{Message}
use ft_irc_server.Prelude.{
  ℕ, ◌≡◌, refl, ap, false, List, [], ◌∷◌, Str, text, same, same_iff, map, is_empty, length, ltb,
  arith,
}
use ft_irc_server.Server.{Server}

-- There is a parameter where there are enough.
pub given_params : {A : Type 0} (xs : List A) → ltb (length xs) 1 ≡ false → is_empty xs ≡ false
given_params [] h = ground arith
given_params (x ∷ xs) h = refl

-- A message that calls a command is dispatched as one by that name.
pub dispatch_called :
    (command : Str) (k : ℕ) (m : Message) (s : Server)
    → Calls command m
    → dispatch_message (map toupper m.cmd) k m s ≡ dispatch_message command k m s
dispatch_called command k m s called =
    ap (λ c. dispatch_message c k m s) ((same_iff (map toupper m.cmd) command).0 called)

pub dispatch_pass :
    (k : ℕ) (m : Message) (s : Server) → dispatch_message (text "PASS") k m s ≡ pass_hundler k m s
unfolding dispatch_message text same
dispatch_pass k m s = refl

pub dispatch_nick :
    (k : ℕ) (m : Message) (s : Server) → dispatch_message (text "NICK") k m s ≡ nick_hundler k m s
unfolding dispatch_message text same
dispatch_nick k m s = refl

pub dispatch_user :
    (k : ℕ) (m : Message) (s : Server) → dispatch_message (text "USER") k m s ≡ user_handler k m s
unfolding dispatch_message text same
dispatch_user k m s = refl

pub dispatch_join :
    (k : ℕ) (m : Message) (s : Server) → dispatch_message (text "JOIN") k m s ≡ join_handler k m s
unfolding dispatch_message text same
dispatch_join k m s = refl

pub dispatch_kick :
    (k : ℕ) (m : Message) (s : Server) → dispatch_message (text "KICK") k m s ≡ kick_handler k m s
unfolding dispatch_message text same
dispatch_kick k m s = refl

pub dispatch_topic :
    (k : ℕ) (m : Message) (s : Server) → dispatch_message (text "TOPIC") k m s ≡ topic_handler k m s
unfolding dispatch_message text same
dispatch_topic k m s = refl

pub dispatch_invite :
    (k : ℕ) (m : Message) (s : Server)
    → dispatch_message (text "INVITE") k m s ≡ invite_handler k m s
unfolding dispatch_message text same
dispatch_invite k m s = refl

pub dispatch_mode :
    (k : ℕ) (m : Message) (s : Server) → dispatch_message (text "MODE") k m s ≡ modes k m s
unfolding dispatch_message text same
dispatch_mode k m s = refl
