-- ===== src/Network/Lines.antt =====
-- How `Server::extract_msg` takes lines out of a receive buffer.
use ft_irc_server.Prelude.{[], ◌∷◌, Option, none, some, Str, ◌==◌, if◌then◌else◌, on_found}

-- `buffer.find('\n')`, as what stands before the first newline and what stands behind it.
unfoldable pub cut_line : Str → Option (Str × Str)
cut_line [] = none
cut_line (c ∷ cs) =
    if c == b'\n'
    then some ([], cs)
    else on_found (cut_line cs) none (λ cut. some (c ∷ cut.0, cut.1))

-- The `'\r'` at the end of a line goes.
unfoldable pub chop_return : Str → Str
chop_return [] = []
chop_return (c ∷ []) = if c == b'\r' then [] else c ∷ []
chop_return (c ∷ d ∷ cs) = c ∷ chop_return (d ∷ cs)
