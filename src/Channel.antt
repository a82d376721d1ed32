-- ===== src/Channel.antt =====
-- includes/Channel.hpp and srcs/Channel.cpp: one channel, its members, operators, invitations and
-- modes. The member limit is a C++ `int`.
pub mod Members
use ft_irc_server.Int.{ℤ, pos, is_positive}
use Members.{has_fd, add_fd, remove_fd}
use ft_irc_server.Prelude.{ℕ, Bool, false, List, [], Str, is_empty, not}

pub record Channel : Type 0 where
  pub name : Str
  pub topic : Str
  pub member_fds : List ℕ
  pub operator_fds : List ℕ
  pub invited_fds : List ℕ
  pub invite_only : Bool
  pub change_topic : Bool
  pub key : Str
  pub limit : ℤ

-- The constructor.
abbrev pub new_channel : Str → Channel
new_channel channel_name = record {
  name = channel_name;
  topic = [];
  member_fds = [];
  operator_fds = [];
  invited_fds = [];
  invite_only = false;
  change_topic = false;
  key = [];
  limit = pos 0;
}

abbrev pub has_member : ℕ → Channel → Bool
has_member fd ch = has_fd fd ch.member_fds

abbrev pub add_member : ℕ → Channel → Channel
add_member fd ch = record ch { member_fds = add_fd fd ch.member_fds }

abbrev pub remove_member : ℕ → Channel → Channel
remove_member fd ch = record ch {
  member_fds = remove_fd fd ch.member_fds;
  operator_fds = remove_fd fd ch.operator_fds;
}

abbrev pub is_channel_empty : Channel → Bool
is_channel_empty ch = is_empty ch.member_fds

abbrev pub is_operator : ℕ → Channel → Bool
is_operator fd ch = has_fd fd ch.operator_fds

abbrev pub add_operator : ℕ → Channel → Channel
add_operator fd ch = record ch { operator_fds = add_fd fd ch.operator_fds }

abbrev pub is_invited : ℕ → Channel → Bool
is_invited fd ch = has_fd fd ch.invited_fds

abbrev pub add_invite : ℕ → Channel → Channel
add_invite fd ch = record ch { invited_fds = add_fd fd ch.invited_fds }

abbrev pub set_topic : Str → Channel → Channel
set_topic new_topic ch = record ch { topic = new_topic }

abbrev pub remove_invite : ℕ → Channel → Channel
remove_invite fd ch = record ch { invited_fds = remove_fd fd ch.invited_fds }

abbrev pub remove_operator : ℕ → Channel → Channel
remove_operator fd ch = record ch { operator_fds = remove_fd fd ch.operator_fds }

abbrev pub set_invite_only : Bool → Channel → Channel
set_invite_only val ch = record ch { invite_only = val }

abbrev pub set_change_topic : Bool → Channel → Channel
set_change_topic val ch = record ch { change_topic = val }

abbrev pub has_key : Channel → Bool
has_key ch = not (is_empty ch.key)

abbrev pub set_key : Str → Channel → Channel
set_key new_key ch = record ch { key = new_key }

abbrev pub remove_key : Channel → Channel
remove_key ch = record ch { key = [] }

abbrev pub has_limit : Channel → Bool
has_limit ch = is_positive ch.limit

abbrev pub set_limit : ℤ → Channel → Channel
set_limit user_limit ch = record ch { limit = user_limit }

abbrev pub remove_limit : Channel → Channel
remove_limit ch = record ch { limit = pos 0 }
