-- ===== src/Manager/Listen/Sound.antt =====
-- The list of ensured packets, whatever comes in on the ports.
use rover_workspace.Prelude.{ℕ, ◌+◌, Option, none, some}
use rover_workspace.Comm.Parse.{Parsed}
use rover_workspace.Comm.{
  Comm, Protocol, ptype_none, ptype_parse_error, ptype_ack, ptype_cmd, ptype_data, ptype_nmea,
  ptype_ublox, ptype_rtcm3,
}
use rover_workspace.Manager.{Manager, MsgHandler}
use rover_workspace.Manager.Retries.Run.{Sound}
use rover_workspace.Manager.Listen.{
  call_handler, dispatch, after_dispatch, parsed, handled, RxLoop, ends, message, RxPort, nothing,
  some_bytes, RxStep, no_more, one_more, freed, filled,
}
use rover_workspace.Manager.Listen.Answers.{process_binary-Sound, if-Sound}

call_handler-Sound :
    (cm : Manager) (p_handle : ℕ) (c : Comm) (o : Option MsgHandler)
    → Sound cm
    → Sound (call_handler cm p_handle c o).manager
call_handler-Sound cm p_handle c none v = v
call_handler-Sound cm p_handle c (some f) v = v

dispatch-Sound :
    (cm : Manager) (p_handle : ℕ) (c : Comm) (p : Protocol)
    → Sound cm
    → Sound (dispatch cm p_handle c p).manager
unfolding dispatch
dispatch-Sound cm p_handle c ptype_parse_error v = v
dispatch-Sound cm p_handle c ptype_data v = process_binary-Sound cm p_handle c.pkt v
dispatch-Sound cm p_handle c ptype_cmd v = process_binary-Sound cm p_handle c.pkt v
dispatch-Sound cm p_handle c ptype_ublox v = call_handler-Sound cm p_handle c cm.msg_handler_ublox v
dispatch-Sound cm p_handle c ptype_rtcm3 v = call_handler-Sound cm p_handle c cm.msg_handler_rtcm3 v
dispatch-Sound cm p_handle c ptype_nmea v = call_handler-Sound cm p_handle c cm.msg_handler_ascii v
dispatch-Sound cm p_handle c ptype_none v = v
dispatch-Sound cm p_handle c ptype_ack v = v

handled-Sound :
    (cm : Manager) (p_handle : ℕ) (r : Parsed) → Sound cm → Sound (handled cm p_handle r)
unfolding after_dispatch parsed
handled-Sound cm p_handle r v =
    let d = dispatch-Sound (parsed cm p_handle r) p_handle r.comm r.ptype v in
    if-Sound (dispatch (parsed cm p_handle r) p_handle r.comm r.ptype).manager _ _ d d

RxLoop-Sound :
    (p_handle time_ms : ℕ) {cm cm' : Manager}
    → RxLoop p_handle time_ms cm cm'
    → Sound cm
    → Sound cm'
unfolding parsed
RxLoop-Sound p_handle time_ms (ends cm port at quiet) v = v
RxLoop-Sound p_handle time_ms (message cm cm' port at found rest) v =
    RxLoop-Sound p_handle time_ms rest (handled-Sound cm p_handle _ v)

RxPort-Sound :
    (p_handle time_ms : ℕ) {cm cm' : Manager}
    → RxPort p_handle time_ms cm cm'
    → Sound cm
    → Sound cm'
unfolding freed filled
RxPort-Sound p_handle time_ms (nothing cm port at) v = v
RxPort-Sound p_handle time_ms (some_bytes cm cm' port read at some_read room loop) v =
    RxLoop-Sound p_handle time_ms loop v

-- Whatever bytes come in on the ports, whatever packets and errors the parsers find in them, and whatever
-- the callbacks do with the memory, a receive step of the manager leaves a list of ensured packets in
-- which only slots with -2 follow a slot with -2, when there was such a list before and the retry count
-- is 0 or more, which it stays.
pub RxStep-Sound :
    (time_ms p_handle left : ℕ) {cm cm' : Manager}
    → RxStep time_ms p_handle left cm cm'
    → Sound cm
    → Sound cm'
RxStep-Sound time_ms p_handle left (no_more p cm) v = v
RxStep-Sound time_ms p_handle left (one_more p n a b c port rest) v =
    RxStep-Sound time_ms (p + 1) n rest (RxPort-Sound p time_ms port v)
