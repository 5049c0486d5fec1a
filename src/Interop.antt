-- ===== src/Interop.antt =====
-- examples/interop: a program that sends a video, or receives it, over one flow. pion and the frames of
-- the video are parameters.
pub mod Sender
pub mod Main
pub mod FileWriter
pub mod Program
pub mod EndToEnd
