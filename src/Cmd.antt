-- ===== src/Cmd.antt =====
-- src/cmd.h: the commands of the protocol.
use lexidb.Object.{Object}

pub data Cmdt : Type 0 where
  illegal okc auth ping infoc select help keys set get del push pop enque deque zset zhas zdel :
      Cmdt

-- the union `data`: zero bytes, the objects of a command, or the command that HELP is asked about
pub data CmdData (Double : Type 0) : Type 0 where
  zeroed : CmdData Double
  one : Object Double → CmdData Double
  two : Object Double → Object Double → CmdData Double
  help_with : Cmdt → CmdData Double

pub record Cmd (Double : Type 0) : Type 0 where
  pub type : Cmdt
  pub args : CmdData Double

-- `cmd cmd = {0}`
abbrev pub no_cmd : {D : Type 0} → Cmd D
no_cmd = record { type = illegal; args = zeroed }
