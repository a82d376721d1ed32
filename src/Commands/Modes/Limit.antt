-- ===== src/Commands/Modes/Limit.antt =====
-- srcs/modes/limited_usage.cpp: the mode `l`. `std::atoi` is `strtol` cut down to an `int`, as in
-- the GNU C library on a 64-bit system: beyond a `long`, the greatest `long` is cut down.
use Prim.Native.Nat.{min}
use ft_irc_server.Int.{ℤ, is_positive, to_int}
use ft_irc_server.Channel.{set_limit, remove_limit}
use ft_irc_server.Commands.Common.{reply}
use ft_irc_server.Commands.Modes.Flags.{announce}
use ft_irc_server.Commands.Nick.{isdigit}
use ft_irc_server.Parser.{Message, param}
use ft_irc_server.Prelude.{
  ℕ, ◌+◌, ◌-◌, ◌*◌, ◌^◌, Bool, true, false, [], ◌∷◌, not, ◌&&◌, ◌++◌, Str, text, same, is_empty,
  length, ltb, if◌then◌else◌,
}
use ft_irc_server.Server.{Server, update_channel}

-- The loop that checks the digits.
unfoldable pub all_digits : Str → Bool
all_digits [] = true
all_digits (c ∷ cs) = if isdigit c then all_digits cs else false

-- The number that a row of digits stands for, behind the digits read so far.
unfoldable pub digits_value : ℕ → Str → ℕ
digits_value n [] = n
digits_value n (c ∷ cs) = digits_value (n * 10 + (c - 48)) cs

unfoldable pub atoi : Str → ℤ
unfolding to_int digits_value
atoi s = to_int (min (digits_value 0 s) (2 ^ 63 - 1))

-- `+l` with its parameter.
unfoldable pub change_limit : ℕ → Message → ℕ → Server → Server
unfolding all_digits atoi
change_limit k m i s =
    let limit_str = param m 2 in
    if not (not (is_empty limit_str) && all_digits limit_str)
    then reply k 461 (text "MODE") s
    else if not (is_positive (atoi limit_str))
    then reply k 461 (text "MODE") s
    else announce k i (text "+l " ++ limit_str) (update_channel i (set_limit (atoi limit_str)) s)

unfoldable pub limited_usage : ℕ → Message → ℕ → Server → Bool × Server
unfolding change_limit
limited_usage k m i s =
    let mode = param m 1 in
    if not (same mode (text "+l")) && not (same mode (text "-l"))
    then (false, s)
    else if same mode (text "-l")
    then (true, announce k i (text "-l") (update_channel i remove_limit s))
    else if ltb (length m.params) 3
    then (true, reply k 461 (text "MODE") s)
    else (true, change_limit k m i s)
