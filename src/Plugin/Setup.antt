-- ===== src/Plugin/Setup.antt =====
-- What a plugin makes of the tables of its script.
use device_tester.Prelude.{
  ◌≡◌, Bool, true, false, if◌then◌else◌, Option, some, none, List, ◌++◌, Bytes, map, length,
}
use mathlib.Core.Option.{map as map_option}
use text.Mathlib.Text.{◌==◌ as str_eq}
use device_tester.RingBuffer.Container.{CircularBuffer}
use device_tester.Asio.{SocketApi}
use device_tester.Asio.SerialPort.{SerialApi}
use device_tester.CoapClient.Library.{CoapApi}
use device_tester.Serial.Line
use device_tester.Serial.Line.{Parity, FlowControl, one}
use device_tester.Plugin.{Entry, Wrapper, LuaPlugin}
use device_tester.Plugin.Described.{Seen, all_complete, all_described, all_wrapped}
use device_tester.Plugin.Made.{seen}

module _ ⦃box : CircularBuffer Bytes⦄ ⦃net : SocketApi⦄ ⦃api : SerialApi⦄ ⦃coap : CoapApi⦄ where
  -- A round of the loop: it throws, or it adds what the table describes.
  data Round (s : LuaPlugin) (seens : List Seen) (ws : List Wrapper)
      : Bool → Option LuaPlugin → Type 0 where
    throws : Round s seens ws false none
    adds :
        (t : LuaPlugin)
        → map seen t.connections ≡ map seen s.connections ++ seens
        → t.wrappers ≡ s.wrappers ++ ws
        → Round s seens ws true (some t)

  abbrev pub view : LuaPlugin → List Seen × List Wrapper
  view t = (map seen t.connections, t.wrappers)

  -- What the tables describe, if no entry lacks a value.
  abbrev pub told : List Seen → List Wrapper → List Entry → Option (List Seen × List Wrapper)
  told xs ws es =
      if all_complete es
      then some (xs ++ all_described (length ws) es, ws ++ all_wrapped es)
      else none
