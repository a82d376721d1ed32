-- ===== src/Invariant/Sessions.antt =====
-- The registration of a client and the nicknames, along `PASS`, `NICK` and `USER`.
use ft_irc_server.Channel.Members.{has_fd, Distinct}
use ft_irc_server.Client.{Client, new_client, set_pass_is_recived}
use ft_irc_server.Commands.Nick.{check_nick_valid, nick_in_use}
use ft_irc_server.Effect.{with_nick, with_user}
use ft_irc_server.Invariant.{SessionOk, UniqueNicks, nick_taken}
use ft_irc_server.Prelude.{
  ℕ, zero, suc, ◌≡◌, refl, true, false, List, [], ◌∷◌, map, some, Str, same, same_iff, is_empty,
  arith, get_elem?, modify,
}

pub new_client-SessionOk : (fd : ℕ) → SessionOk (new_client fd)
new_client-SessionOk fd = record {
  complete = refl;
  nick_after_pass = λ e. cc;
  user_after_pass = λ e. cc;
  nick_valid = λ e. cc;
  nick_empty = λ _. refl;
}

pub pass-SessionOk : (c : Client) → SessionOk c → SessionOk (set_pass_is_recived true c)
pass-SessionOk c h = record {
  complete = h.complete;
  nick_after_pass = λ _. refl;
  user_after_pass = λ _. refl;
  nick_valid = h.nick_valid;
  nick_empty = h.nick_empty;
}

pub nick-SessionOk :
    (nick : Str) (c : Client)
    → c.pass_recived ≡ true
    → check_nick_valid nick ≡ true
    → SessionOk c
    → SessionOk (with_nick nick c)
nick-SessionOk nick c passed valid h = record {
  complete = ground (arith, h.complete);
  nick_after_pass = λ _. passed;
  user_after_pass = λ _. passed;
  nick_valid = λ _. valid;
  nick_empty = λ e. cc;
}

pub user-SessionOk :
    (username : Str) (c : Client)
    → c.pass_recived ≡ true
    → SessionOk c
    → SessionOk (with_user username c)
user-SessionOk username c passed h = record {
  complete = ground (arith, h.complete);
  nick_after_pass = h.nick_after_pass;
  user_after_pass = λ _. passed;
  nick_valid = h.nick_valid;
  nick_empty = h.nick_empty;
}

-- A valid nickname is not empty.
pub nick_valid-not_empty : (nick : Str) → check_nick_valid nick ≡ true → is_empty nick ≡ false
unfolding check_nick_valid
nick_valid-not_empty [] h = cc
nick_valid-not_empty (c ∷ cs) h = refl

pub has_fd-get_elem? :
    (k : ℕ) (cs : List Client) (c : Client)
    → get_elem? cs k ≡ some c
    → has_fd c.fd (map (λ d. d.fd) cs) ≡ true
unfolding has_fd
has_fd-get_elem? k [] c e = cc
has_fd-get_elem? zero (x ∷ cs) c e = ground arith
has_fd-get_elem? (suc k) (x ∷ cs) c e = ground (arith, has_fd-get_elem? k cs c e)

-- If nobody else uses it, the clients with other descriptors do not have it.
nick_taken-free :
    (nick : Str) (fd : ℕ) (cs : List Client)
    → has_fd fd (map (λ d. d.fd) cs) ≡ false
    → nick_in_use nick fd cs ≡ false
    → nick_taken nick cs ≡ false
unfolding nick_taken nick_in_use has_fd
nick_taken-free nick fd [] h free = refl
nick_taken-free nick fd (c ∷ cs) h free = ground (arith, nick_taken-free nick fd cs)

nick_taken-rename :
    (n nick : Str) (k : ℕ) (cs : List Client)
    → same nick n ≡ false
    → nick_taken n cs ≡ false
    → nick_taken n (modify k (with_nick nick) cs) ≡ false
unfolding nick_taken
nick_taken-rename n nick k [] h free = refl
nick_taken-rename n nick zero (c ∷ cs) h free = ground arith
nick_taken-rename n nick (suc k) (c ∷ cs) h free = ground (arith, nick_taken-rename n nick k cs h)

same_sym : (a b : Str) → same a b ≡ false → same b a ≡ false
same_sym a b h = ground (arith, same_iff a b, same_iff b a)

-- The client at `k` can take a nickname that the search of `NICK` finds with no other client: the
-- nicknames stay unique, if they are so before and no two clients share a descriptor.
pub UniqueNicks-rename :
    (nick : Str) (k : ℕ) (cs : List Client) (c : Client)
    → get_elem? cs k ≡ some c
    → Distinct (map (λ d. d.fd) cs)
    → nick_in_use nick c.fd cs ≡ false
    → UniqueNicks cs
    → UniqueNicks (modify k (with_nick nick) cs)
unfolding nick_in_use has_fd
UniqueNicks-rename nick k [] c e once free unique = tt
UniqueNicks-rename nick zero (x ∷ cs) c e once free unique =
    (λ _. nick_taken-free nick x.fd cs once.0 (ground arith), unique.1)
UniqueNicks-rename nick (suc k) (x ∷ cs) c e once free unique = (
  λ named.
      nick_taken-rename x.nickname nick k cs
        (same_sym x.nickname nick (ground (arith, has_fd-get_elem? k cs c e, once.0)))
        (unique.0 named),
  UniqueNicks-rename nick k cs c e once.1 (ground arith) unique.1,
)
