-- ===== src/Network/Gone.antt =====
-- What `disconnect` leaves of a client.
use ft_irc_server.Channel.Members.{has_fd, remove_fd, Distinct, has_fd-remove_self, remove-Distinct}
use ft_irc_server.Channel.{Channel, has_member, is_operator, is_invited, is_channel_empty}
use ft_irc_server.Invariant.Names.{left_by}
use ft_irc_server.Invariant.{WellFormed, ChannelOk, client_fds, poll_fds}
use ft_irc_server.Network.Leaving.{fd_at-entry}
use ft_irc_server.Network.Rounds.{length-map}
use ft_irc_server.Network.{fd_at, disconnect}
use ft_irc_server.Prelude.{
  ℕ, zero, suc, ◌-◌, ◌<◌, ◌≡◌, refl, ap, ◌∙◌, subst, true, false, List, [], ◌∷◌, arith, ==_iff,
  length, get_or, erase_at, All, if_cases, map-erase_at,
}
use ft_irc_server.Server.{Server, leave_from, leave_chanels}

-- No channel knows the descriptor.
pub record Forgotten (fd : ℕ) (ch : Channel) : Type 0 where
  pub not_member : has_member fd ch ≡ false
  pub not_operator : is_operator fd ch ≡ false
  pub not_invited : is_invited fd ch ≡ false

leave_from-Forgotten :
    (fd : ℕ) (chs : List Channel) → All ChannelOk chs → All (Forgotten fd) (leave_from fd chs)
unfolding leave_from
leave_from-Forgotten fd [] ok = tt
leave_from-Forgotten fd (ch ∷ chs) ok =
    let rest = leave_from-Forgotten fd chs ok.1 in
    if_cases (All (Forgotten fd)) (is_channel_empty (left_by fd ch)) (λ _. rest)
      (λ _. (forgotten, rest))
  where
    forgotten : Forgotten fd (left_by fd ch)
    forgotten = record {
      not_member = has_fd-remove_self fd ch.member_fds ok.0.members_once;
      not_operator =
          has_fd-remove_self fd (remove_fd fd ch.operator_fds)
            (remove-Distinct fd ch.operator_fds ok.0.operators_once);
      not_invited = has_fd-remove_self fd ch.invited_fds ok.0.invited_once;
    }

has_fd-get_or_at : (j : ℕ) (xs : List ℕ) → j < length xs → has_fd (get_or xs j 0) xs ≡ true
unfolding has_fd
has_fd-get_or_at j [] h = elim h [ ]
has_fd-get_or_at zero (x ∷ xs) h = ground arith
has_fd-get_or_at (suc j) (x ∷ xs) h = ground (arith, has_fd-get_or_at j xs)

-- In a list without repetition, what stood at an index is gone once it is erased.
has_fd-erased :
    (j : ℕ) (xs : List ℕ)
    → Distinct xs
    → j < length xs
    → has_fd (get_or xs j 0) (erase_at j xs) ≡ false
unfolding has_fd
has_fd-erased j [] once h = refl
has_fd-erased zero (x ∷ xs) once h = once.0
has_fd-erased (suc j) (x ∷ xs) once h = ground (
  arith,
  has_fd-erased j xs once.1 (omega arith),
  has_fd-get_or_at j xs (omega arith),
  once.0,
  (==_iff x (get_or xs j 0)),
  ap (λ y. has_fd y xs),
)

-- After the client at `j` of a well-formed server disconnects, no poll entry and no client has its
-- descriptor, and no channel has it among the members, the operators or the invited.
pub disconnect-Forgotten :
    (j : ℕ) (s : Server)
    → WellFormed s
    → j < length s.clients
    → let fd = (fd_at s (suc j)).fd in
      (has_fd fd (client_fds (disconnect (suc j) s)) ≡ false)
      × (has_fd fd (poll_fds (disconnect (suc j) s)) ≡ false)
      × All (Forgotten fd) (disconnect (suc j) s).channels
unfolding disconnect leave_chanels
disconnect-Forgotten j s w h = (
  ap (λ fd. has_fd fd (client_fds (disconnect (suc j) s))) entry
      ∙ ap (has_fd (get_or (client_fds s) j 0)) (map-erase_at (λ c. c.fd) (suc j - 1) s.clients)
      ∙ ap (λ i. has_fd (get_or (client_fds s) j 0) (erase_at i (client_fds s))) index
      ∙ has_fd-erased j (client_fds s) once.1 inside,
  ap (λ fd. has_fd fd (poll_fds (disconnect (suc j) s))) entry
      ∙ ap (has_fd (get_or (client_fds s) j 0)) (map-erase_at (λ p. p.fd) (suc j) s.fds)
      ∙ ap (λ fds. has_fd (get_or (client_fds s) j 0) (erase_at (suc j) fds)) w.entries
      ∙ has_fd-erased (suc j) (w.listen_fd ∷ client_fds s) once (omega (arith, inside)),
  leave_from-Forgotten (fd_at s (suc j)).fd s.channels w.channels_ok,
)
  where
    index : suc j - 1 ≡ j
    index = omega arith

    entry : (fd_at s (suc j)).fd ≡ get_or (client_fds s) j 0
    entry = fd_at-entry j s w

    once : Distinct (w.listen_fd ∷ client_fds s)
    once = subst Distinct w.entries w.entries_once

    inside : j < length (client_fds s)
    inside =
        let same : length (client_fds s) ≡ length s.clients = length-map (λ c. c.fd) s.clients in
        omega arith
