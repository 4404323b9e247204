-- ===== src/Hooks/StripQuoted/Samples.antt =====
-- A commit whose message names another command, and a heredoc.
use browzer_cli.Prelude.{◌∷◌, ◌++◌, ◌≡◌, refl, arith}
use browzer_cli.Prelude.Text.{codes, newline, has_prefix}
use browzer_cli.Prelude.Loop.{iterate}
use browzer_cli.Hooks.StripQuoted.{
  strip_quoted, strip_step, skip_heredoc, heredoc_header, find_close, closes, delimiter,
  quoted_delim, span,
}
use browzer_cli.Hooks.StripQuoted.Command.{
  Command, nothing, plain, single, double, close, inserted, end, chr, print, skeleton, IsCommand,
}
use browzer_cli.Hooks.StripQuoted.Skeleton.{strip_quoted-print}

-- g "$(b)"'c'
abbrev command : Command
command =
    plain b'g' (plain 32 (double (inserted (chr b'b' end) close) (single (codes "c") nothing)))

command-IsCommand : IsCommand command
command-IsCommand = ground arith

strip_quoted-print_example : strip_quoted (print command) ≡ skeleton command
strip_quoted-print_example = strip_quoted-print command command-IsCommand

heredoc_stripped :
    strip_quoted (
      codes "cat <<EOF"
      ++ (newline ∷ (codes "x" ++ (newline ∷ (codes "EOF" ++ (newline ∷ codes "ls"))))))
    ≡ codes "cat ls"
unfolding strip_quoted iterate strip_step skip_heredoc heredoc_header find_close closes delimiter
    quoted_delim span has_prefix
heredoc_stripped = refl
