-- ===== src/Channel/Members.antt =====
-- The loops over a vector of file descriptors in srcs/Channel.cpp, which serve the members, the
-- operators and the invitations alike.
use ft_irc_server.Prelude.{
  ℕ, ◌≡◌, refl, Bool, true, false, List, [], ◌∷◌, ◌++◌, arith, ◌==◌, if◌then◌else◌,
}

-- `hasMember`, `isOperator`, `isInvited`.
unfoldable pub has_fd : ℕ → List ℕ → Bool
has_fd fd [] = false
has_fd fd (x ∷ xs) = if x == fd then true else has_fd fd xs

-- `addMember`, `addOperator`, `addInvite`.
unfoldable pub add_fd : ℕ → List ℕ → List ℕ
unfolding has_fd
add_fd fd xs = if has_fd fd xs then xs else xs ++ fd ∷ []

-- `remove_invite`, `remove_operator` and the two loops of `removeMember`: the first hit goes.
unfoldable pub remove_fd : ℕ → List ℕ → List ℕ
remove_fd fd [] = []
remove_fd fd (x ∷ xs) = if x == fd then xs else x ∷ remove_fd fd xs

-- No file descriptor stands twice.
abbrev pub Distinct : List ℕ → Type 0
Distinct [] = Unit
Distinct (x ∷ xs) = (has_fd x xs ≡ false) × Distinct xs

pub has_fd-append :
    (fd : ℕ) (xs ys : List ℕ) → has_fd fd (xs ++ ys) ≡ (if has_fd fd xs then true else has_fd fd ys)
unfolding has_fd
has_fd-append fd [] ys = refl
has_fd-append fd (x ∷ xs) ys = ground (arith, has_fd-append fd xs ys)

pub has_fd-add :
    (fd g : ℕ) (xs : List ℕ) → has_fd g (add_fd fd xs) ≡ (if fd == g then true else has_fd g xs)
unfolding add_fd has_fd
has_fd-add fd g xs = ground (arith, has_fd-append g xs (fd ∷ []))

-- A descriptor that is not there is not removed from anywhere.
pub remove_fd-absent : (fd : ℕ) (xs : List ℕ) → has_fd fd xs ≡ false → remove_fd fd xs ≡ xs
unfolding remove_fd has_fd
remove_fd-absent fd [] h = refl
remove_fd-absent fd (x ∷ xs) h = ground (arith, remove_fd-absent fd xs)

pub has_fd-remove_ne :
    (fd g : ℕ) (xs : List ℕ) → (fd == g) ≡ false → has_fd g (remove_fd fd xs) ≡ has_fd g xs
unfolding remove_fd has_fd
has_fd-remove_ne fd g [] h = refl
has_fd-remove_ne fd g (x ∷ xs) h = ground (arith, has_fd-remove_ne fd g xs h)

pub has_fd-remove_self : (fd : ℕ) (xs : List ℕ) → Distinct xs → has_fd fd (remove_fd fd xs) ≡ false
unfolding remove_fd has_fd
has_fd-remove_self fd [] d = refl
has_fd-remove_self fd (x ∷ xs) d = ground (arith, has_fd-remove_self fd xs d.1, d.0)

-- What is left is what was there, whoever it is.
pub has_fd-remove :
    (fd g : ℕ) (xs : List ℕ) → has_fd g (remove_fd fd xs) ≡ true → has_fd g xs ≡ true
unfolding remove_fd has_fd
has_fd-remove fd g [] h = h
has_fd-remove fd g (x ∷ xs) h = ground (arith, has_fd-remove fd g xs)

pub add-Distinct : (fd : ℕ) (xs : List ℕ) → Distinct xs → Distinct (add_fd fd xs)
unfolding add_fd has_fd
add-Distinct fd [] d = (refl, tt)
add-Distinct fd (x ∷ xs) d = ground (arith, has_fd-append x xs (fd ∷ []), add-Distinct fd xs d.1)

pub remove-Distinct : (fd : ℕ) (xs : List ℕ) → Distinct xs → Distinct (remove_fd fd xs)
unfolding remove_fd has_fd
remove-Distinct fd [] d = tt
remove-Distinct fd (x ∷ xs) d =
    ground (arith, remove-Distinct fd xs d.1, has_fd-remove fd x xs, d.0)
