-- ===== src/Network/Rebuffer/Reads.antt =====
-- What the handlers read of the clients, under a change of a receive buffer.
use ft_irc_server.Channel.{Channel}
use ft_irc_server.Client.{Client, new_client}
use ft_irc_server.Commands.Common.{has_nickname}
use ft_irc_server.Commands.Join.{names_list, names_of_member}
use ft_irc_server.Commands.Nick.{nick_in_use}
use ft_irc_server.Network.{set_buffer}
use ft_irc_server.Prelude.{
  ℕ, zero, suc, ◌≡◌, refl, ap, ◌∙◌, Bool, true, not, ◌&&◌, List, [], ◌∷◌, Option, some, Str, ◌==◌,
  if◌then◌else◌, length, get_or, modify, find_last, find_first,
}

pub modify_comm {ℓ} :
    {A : Type ℓ} (j k : ℕ) (f g : A → A) (xs : List A)
    → ((x : A) → f (g x) ≡ g (f x))
    → modify j f (modify k g xs) ≡ modify k g (modify j f xs)
modify_comm j k f g [] h = refl
modify_comm zero zero f g (x ∷ xs) h = ap (λ y. y ∷ xs) (h x)
modify_comm zero (suc k) f g (x ∷ xs) h = refl
modify_comm (suc j) zero f g (x ∷ xs) h = refl
modify_comm (suc j) (suc k) f g (x ∷ xs) h = ap (◌∷◌ x) (modify_comm j k f g xs h)

pub field_same {ℓ} :
    {B : Type ℓ} (g : Client → B) (j k : ℕ) (b : Str) (cs : List Client)
    → ((c : Client) → g (set_buffer b c) ≡ g c)
    → g (get_or (modify j (set_buffer b) cs) k (new_client 0)) ≡ g (get_or cs k (new_client 0))
field_same g j k b [] h = refl
field_same g zero zero b (c ∷ cs) h = h c
field_same g zero (suc k) b (c ∷ cs) h = refl
field_same g (suc j) zero b (c ∷ cs) h = refl
field_same g (suc j) (suc k) b (c ∷ cs) h = field_same g j k b cs h

pub find_last-same :
    (test : Client → Bool) (i j : ℕ) (b : Str) (cs : List Client) (found : Option ℕ)
    → ((c : Client) → test (set_buffer b c) ≡ test c)
    → find_last test i (modify j (set_buffer b) cs) found ≡ find_last test i cs found
find_last-same test i j b [] found h = refl
find_last-same test i zero b (c ∷ cs) found h =
    ap (λ r. find_last test (suc i) cs (if r then some i else found)) (h c)
find_last-same test i (suc j) b (c ∷ cs) found h = find_last-same test (suc i) j b cs _ h

pub find_first-same :
    (test : Client → Bool) (i j : ℕ) (b : Str) (cs : List Client)
    → ((c : Client) → test (set_buffer b c) ≡ test c)
    → find_first test i (modify j (set_buffer b) cs) ≡ find_first test i cs
find_first-same test i j b [] h = refl
find_first-same test i zero b (c ∷ cs) h = rw (h c)
find_first-same test i (suc j) b (c ∷ cs) h =
    ap (λ r. if test c then some i else r) (find_first-same test (suc i) j b cs h)

pub nick_in_use-same :
    (nick : Str) (fd j : ℕ) (b : Str) (cs : List Client)
    → nick_in_use nick fd (modify j (set_buffer b) cs) ≡ nick_in_use nick fd cs
unfolding nick_in_use
nick_in_use-same nick fd j b [] = refl
nick_in_use-same nick fd zero b (c ∷ cs) = refl
nick_in_use-same nick fd (suc j) b (c ∷ cs) =
    ap (λ r. if has_nickname nick c && not (c.fd == fd) then true else r)
      (nick_in_use-same nick fd j b cs)

names_of_member-same :
    (ch : Channel) (m j : ℕ) (b : Str) (cs : List Client) (names : Str)
    → names_of_member ch m (modify j (set_buffer b) cs) names ≡ names_of_member ch m cs names
unfolding names_of_member
names_of_member-same ch m j b [] names = refl
names_of_member-same ch m zero b (c ∷ cs) names = refl
names_of_member-same ch m (suc j) b (c ∷ cs) names = names_of_member-same ch m j b cs _

pub names_list-same :
    (ch : Channel) (j : ℕ) (b : Str) (cs : List Client) (members : List ℕ) (names : Str)
    → names_list ch (modify j (set_buffer b) cs) members names ≡ names_list ch cs members names
unfolding names_list
names_list-same ch j b cs [] names = refl
names_list-same ch j b cs (m ∷ members) names =
    ap (names_list ch (modify j (set_buffer b) cs) members) (names_of_member-same ch m j b cs names)
    ∙ names_list-same ch j b cs members _

pub length-modify {ℓ} :
    {A : Type ℓ} (k : ℕ) (f : A → A) (xs : List A) → length (modify k f xs) ≡ length xs
length-modify k f [] = refl
length-modify zero f (x ∷ xs) = refl
length-modify (suc k) f (x ∷ xs) = ap suc (length-modify k f xs)
