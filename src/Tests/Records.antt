-- ===== src/Tests/Records.antt =====
-- A run and its record.
use hopskip.Base.{◌≡◌, ◌≢◌, List, [], ◌++◌, nat_eq, bytes_eq, pair_eq, int_eq}
use hopskip.Text.{Bytes, codes}
use hopskip.Store.Db.{calm}
use hopskip.Store.Tables.{Tables}
use hopskip.Store.Chats.{ChatMessage, transcript}
use hopskip.Agent.Events.{Event}
use hopskip.Agent.Anthropic
use hopskip.Agent.Anthropic.Acts.{tallied, noted}
use hopskip.Agent.Anthropic.Runs.{run-Transcript}
use hopskip.Server.Recorder.{emit_all}
use hopskip.Server.Recorder.Transcripts.{stored_pieces, streamed_pieces}
use hopskip.Server.Recorder.Runs.{transcript-emit_all}
use hopskip.Tests.Hosts.{day}
use hopskip.Tests.Tables.{talk, c1-has}
use hopskip.Tests.Agents.{scripted, counting}

abbrev streamed : List Event
streamed =
    (Anthropic.run (tallied scripted) (noted counting) 3 (codes "claude-opus") (codes "sys")
      (codes "hosts?") [] (0, [])).0

transcript-emit_all_example :
    (u : Tables) × (ls : List ChatMessage) × (emit_all day streamed
        (record { chat_id = codes "c1"; asst = [] })
        (calm talk)
      ≡ (record { chat_id = codes "c1"; asst = [] }, calm u))
    × (transcript (codes "c1") u ≡ transcript (codes "c1") talk ++ ls)
    × (stored_pieces ls ≡ streamed_pieces streamed)
    × ((j : Bytes) → j ≢ codes "c1" → transcript j u ≡ transcript j talk)
transcript-emit_all_example =
    transcript-emit_all day (codes "c1")
      (run-Transcript scripted counting 3 (codes "claude-opus") (codes "sys") (codes "hosts?") []
        0).order
      talk c1-has
