-- ===== src/Chunker/Processor/Segments.antt =====
-- The segments of a request path come back as the arguments of the command: translate_rest_to_cli of
-- src/server/common.cc, and tokenizeOpCmd of src/server/chunker2_processor.cc.
use vyatta_rest.Prelude.{◌≡◌, false}
use vyatta_rest.Text.{Str}
use vyatta_rest.Text.Find.{Lacks}
use vyatta_rest.Rest.Cli.{enclosed}
use vyatta_rest.Chunker.Processor.Words.{IsArgument}

-- A segment that is decoded to an argument, and is not in double quotes.
abbrev pub IsSegment : (Str → Str) → Str → Type 0
IsSegment unescape s = Lacks b'/' s × IsArgument (unescape s) × (enclosed b'"' (unescape s) ≡ false)
