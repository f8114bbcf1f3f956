-- ===== src/Tests.antt =====
-- Runs of the model on concrete input, and each theorem at one.
mod Registers
mod Lexer
mod Output
mod Trees
mod Compile
mod Sast
mod Convert
mod Connect
mod Syntax
mod Stages
