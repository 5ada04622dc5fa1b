-- ===== src/World/Notes.antt =====
-- The calls of append_interaction (agent/interactions_log.py) whose exceptions are swallowed.
use nemoclaw_smb.Base.{◌+◌, String, none}
use nemoclaw_smb.Base.Dict.{Dict}
use nemoclaw_smb.Json.{Value}
use nemoclaw_smb.Platform.{Platform}
use nemoclaw_smb.Interactions.{Details, append_interaction}
use nemoclaw_smb.World.{World}

module _ ⦃p : Platform⦄ where
  -- the details of a call that gives its metadata only
  abbrev pub with_metadata : Dict (Value p.Float) → Details
  with_metadata metadata = record {
    model = none;
    latency_ms = none;
    mode = none;
    metadata = metadata;
  }

  abbrev pub noted : String → String → String → String → Details → World → World
  noted sponsor op segment status details w = record w {
    tick = w.tick + 1;
    interactions =
        (append_interaction (p.clock w.tick) sponsor op segment status details w.interactions).1;
  }
