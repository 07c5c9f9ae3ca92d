-- ===== src/Tests/Threads.antt =====
-- The theorems on the threads of the TCP server, the XMPP client and the console.
use uwpx_push_server.Common.{◌≡◌, refl, true, false, some}
use uwpx_push_server.PushServer.Lifecycle
use uwpx_push_server.TcpServer
use uwpx_push_server.TcpServer.Refines as Tcp
use uwpx_push_server.Xmpp.Lifecycle as Xmpp
use uwpx_push_server.Xmpp.Lifecycle.Refines as Refines
use uwpx_push_server.Xmpp.Lifecycle.Stopping as Stopping
use uwpx_push_server.IoThread
use uwpx_push_server.IoThread.Stopping as Console

-- the TCP server listens, and stop has not been called
abbrev listening : TcpServer.TcpServer
listening = record {
  state = TcpServer.TcpServerState.running;
  caller = Lifecycle.Caller.idle;
  worker = TcpServer.Worker.testing;
  service = true;
  listening = true;
}

listening_reached : TcpServer.Steps TcpServer.started listening
unfolding TcpServer.thread_run
listening_reached =
    TcpServer.Steps.run_step
      (TcpServer.Steps.run_step
        (TcpServer.Steps.run_step
          (TcpServer.Steps.run_step (TcpServer.Steps.run_step TcpServer.Steps.here refl) refl) refl)
        refl)
      refl

Steps-IsDown_example : Tcp.IsDown Lifecycle.Caller.idle listening
Steps-IsDown_example = Tcp.Steps-IsDown listening listening_reached

-- the client is asked to stop before thread_run has begun
abbrev early : Xmpp.Client
early = record {
  state = Xmpp.XmppClientState.stop_requested;
  caller = Xmpp.Caller.quitting;
  worker = Xmpp.Worker.asserting;
  ctx = false;
  told = false;
}

early_reached : Xmpp.Steps true Xmpp.started early
unfolding Xmpp.stop
early_reached =
    Xmpp.Steps.stop_step (Xmpp.Steps.stop_step (Xmpp.Steps.stop_step Xmpp.Steps.here refl) refl)
      refl

Steps-Refines_example : Lifecycle.Steps Lifecycle.started (Refines.as_server early)
Steps-Refines_example = Refines.Steps-Refines true early early_reached

Steps-IsReleased_example : Stopping.IsReleased Xmpp.Caller.quitting early
Steps-IsReleased_example = Stopping.Steps-IsReleased true early early_reached

stop-xmpp_stop_example : Xmpp.stop early ≡ some (record early { caller = Xmpp.Caller.faulted })
stop-xmpp_stop_example = Stopping.stop-xmpp_stop true early early_reached refl

-- the user exits the console
abbrev console_exit : IoThread.IoThread
console_exit = record {
  state = IoThread.IoThreadState.stop_requested;
  caller = IoThread.Caller.watching;
  worker = IoThread.Worker.exiting;
  told = false;
}

console_exit_reached : IoThread.Steps true IoThread.started console_exit
unfolding IoThread.thread_run IoThread.user_exit
console_exit_reached =
    IoThread.Steps.exit_step
      (IoThread.Steps.run_step
        (IoThread.Steps.run_step
          (IoThread.Steps.run_step (IoThread.Steps.run_step IoThread.Steps.here refl) refl) refl)
        refl)
      refl

Steps-IsJoined_example :
    Console.IsStopped IoThread.Caller.watching IoThread.Worker.exiting
      IoThread.IoThreadState.stop_requested
Steps-IsJoined_example = Console.Steps-IsJoined true console_exit console_exit_reached
