-- ===== src/Network/Closing.antt =====
-- The loop of `shutdown` of srcs/Server.cpp that disconnects the clients.
use ft_irc_server.Channel.Members.{has_fd}
use ft_irc_server.Channel.{Channel}
use ft_irc_server.Client.{Client}
use ft_irc_server.Invariant.{WellFormed, ChannelOk, MembersOk, is_registered_fd, poll_fds}
use ft_irc_server.Network.Leaving.{disconnect-WellFormed}
use ft_irc_server.Network.Progress.{disconnect-length, entries-length}
use ft_irc_server.Network.{disconnect, disconnect_rest}
use ft_irc_server.Prelude.{
  ℕ, zero, suc, ◌≤◌, ◌≡◌, refl, sym, ap, ◌∙◌, true, false, List, [], ◌∷◌, some, arith, ==_refl, ltb,
  ltb→lt, ltb→le, length, is_empty, map, All, if_cases, subst,
}
use ft_irc_server.Server.{Server, leave_chanels}

unwrapped : {a b : ℕ} → some a ≡ some b → a ≡ b
unwrapped e = cc

record Closed (s t : Server) : Type 0 where
  still : WellFormed t
  few : length t.fds ≤ 1
  same_fd : t.fd ≡ s.fd

disconnect-fd : (i : ℕ) (s : Server) → (disconnect i s).fd ≡ s.fd
unfolding disconnect leave_chanels
disconnect-fd i s = refl

disconnect_rest-Closed :
    (fuel : ℕ) (s : Server) → WellFormed s → length s.fds ≤ fuel → Closed s (disconnect_rest fuel s)
unfolding disconnect_rest
disconnect_rest-Closed zero s w h = record { still = w; few = omega (arith, h); same_fd = refl }
disconnect_rest-Closed (suc fuel) s w h =
    if_cases (Closed s) (ltb 1 (length s.fds))
      (λ more.
        let rest =
          disconnect_rest-Closed fuel (disconnect 1 s) (disconnect-WellFormed 0 s w)
            (omega (arith, disconnect-length 1 s (ltb→lt 1 (length s.fds) more))) in
        record { still = rest.still; few = rest.few; same_fd = rest.same_fd ∙ disconnect-fd 1 s })
      (λ done. record { still = w; few = ltb→le 1 (length s.fds) done; same_fd = refl })

no_clients : (cs : List Client) → length cs ≤ 0 → cs ≡ []
no_clients [] h = refl
no_clients (c ∷ cs) h = elim h [ ]

-- Nobody is registered with a server that has no clients.
nobody :
    (fds : List ℕ)
    → is_empty fds ≡ false
    → ((fd : ℕ) → has_fd fd fds ≡ true → is_registered_fd fd [] ≡ true)
    → ⊥
unfolding has_fd is_registered_fd
nobody [] some_one registered = cc
nobody (fd ∷ fds) some_one registered = ground (arith, registered fd, ==_refl fd)

-- A channel has a member, and a member is a client.
no_channels : (chs : List Channel) → All ChannelOk chs → All (MembersOk []) chs → chs ≡ []
no_channels [] ok members = refl
no_channels (ch ∷ chs) ok members =
    absurd (nobody ch.member_fds ok.0.inhabited members.0.members_registered)

-- When the loop of `shutdown` is done with a well-formed server, every client is gone, and with them
-- every channel, and the one entry left is that of the listening socket.
pub disconnect_rest-leaves :
    (fd : ℕ) (s : Server)
    → WellFormed s
    → s.fd ≡ some fd
    → let t = disconnect_rest (length s.fds) s in
      (poll_fds t ≡ fd ∷ []) × (t.clients ≡ []) × (t.channels ≡ [])
disconnect_rest-leaves fd s w listens =
    let closed = disconnect_rest-Closed (length s.fds) s w (omega arith) in
    let t = disconnect_rest (length s.fds) s in
    let still = closed.still in
    let gone : t.clients ≡ [] =
      no_clients t.clients (omega (arith, entries-length t still, closed.few)) in
    (
      still.entries
          ∙ ap (λ cs. still.listen_fd ∷ map (λ c. c.fd) cs) gone
          ∙ ap (λ f. f ∷ []) (unwrapped (sym still.listens ∙ closed.same_fd ∙ listens)),
      gone,
      no_channels t.channels still.channels_ok
          (subst (λ cs. All (MembersOk cs) t.channels) gone still.members),
    )
